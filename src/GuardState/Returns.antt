-- ===== src/GuardState/Returns.antt =====
-- What a read establishes when it returns (aftersales/guard_state.py): rules for its steps, for the
-- cell decoders and for the rows of a template.
use knowledge_agent.Prelude.{
  ℕ, String, Bool, true, false, Option, none, some, List, [], ◌∷◌, ok, err, ◌>>=◌, ◌>>◌, require,
  or_raise, leb, is_blank, ◌≡◌, ◌⊎◌, refl, ◌≤◌, In, inl, inr, Bool-cases, leb→le,
}
use mathlib.Core.Path.{subst}
use knowledge_agent.Prelude.Int.{pos, negsuc}
use knowledge_agent.GuardState.Cells.{
  Cell, null, boolean, integer, string, other, Answer, reads, malformed, fails, ReadError, Read,
  state_malformed, version_cell, text_cell, member_cell, count_cell,
}
use knowledge_agent.GuardState.Reader.{fetch, single, each}

abbrev pub Post : {A : Type 0} → (A → Type 0) → Read A → Type 0
Post P (ok a) = P a
Post P (err e) = Unit

-- Where the read returns, its result has the property.
pub record Returns {A : Type 0} (P : A → Type 0) (m : Read A) : Type 0 where
  pub returned : Post P m

pub ok-Returns : {A : Type 0} {P : A → Type 0} {a : A} → P a → Returns P (ok a)
ok-Returns h = record { returned = h }

pub err-Returns : {A : Type 0} {P : A → Type 0} {e : ReadError} → Returns P (err e)
err-Returns = record { returned = tt }

Post-bind :
    (A B : Type 0) (P : A → Type 0) (Q : B → Type 0) (m : Read A) (f : A → Read B)
    → Post P m
    → ((a : A) → P a → Returns Q (f a))
    → Post Q (m >>= f)
Post-bind A B P Q (ok a) f h k = (k a h).returned
Post-bind A B P Q (err e) f h k = tt

pub bind-Returns :
    {A B : Type 0} {P : A → Type 0} {Q : B → Type 0} {m : Read A} {f : A → Read B}
    → Returns P m
    → ((a : A) → P a → Returns Q (f a))
    → Returns Q (m >>= f)
bind-Returns {A} {B} {P} {Q} {m} {f} h k = record { returned = Post-bind A B P Q m f h.returned k }

pub weaken-Returns :
    {A : Type 0} {P Q : A → Type 0} {m : Read A} → Returns P m → ((a : A) → P a → Q a) → Returns Q m
weaken-Returns {A} {P} {Q} {m} h k = record { returned = go m h.returned }
  where
    go : (m : Read A) → Post P m → Post Q m
    go (ok a) h = k a h
    go (err e) h = tt

-- A step whose result does not matter.
pub after-Returns :
    {A B : Type 0} {Q : B → Type 0} (m : Read A) {f : A → Read B}
    → ((a : A) → Returns Q (f a))
    → Returns Q (m >>= f)
after-Returns (ok a) k = k a
after-Returns (err e) k = record { returned = tt }

pub require-Returns :
    {B : Type 0} {Q : B → Type 0} (b : Bool) (e : ReadError) {k : Read B}
    → (b ≡ true → Returns Q k)
    → Returns Q (require b e >> k)
require-Returns true e h = h refl
require-Returns false e h = record { returned = tt }

pub or_raise-Returns :
    {A B : Type 0} {Q : B → Type 0} (o : Option A) (e : ReadError) {f : A → Read B}
    → ((a : A) → o ≡ some a → Returns Q (f a))
    → Returns Q (or_raise o e >>= f)
or_raise-Returns none e h = record { returned = tt }
or_raise-Returns (some a) e h = h a refl

-- What a template gives: its rows as the database has them, or one row of NULLs.
abbrev pub Fetched : {A : Type 0} → Answer → A → List A → List A → Type 0
Fetched answer nulls rows found = ((answer ≡ reads) × (found ≡ rows)) ⊎ (found ≡ nulls ∷ [])

pub fetch-Returns :
    {A : Type 0} (answer : Answer) (nulls : A) (rows : List A)
    → Returns (Fetched answer nulls rows) (fetch answer nulls rows)
unfolding fetch
fetch-Returns reads nulls rows = record { returned = inl (refl, refl) }
fetch-Returns malformed nulls rows = record { returned = inr refl }
fetch-Returns fails nulls rows = record { returned = tt }

pub text-Returns : (c : Cell) → Returns (λ s. (c ≡ string s) × (is_blank s ≡ false)) (text_cell c)
unfolding text_cell
text-Returns (string s) = elim (Bool-cases (is_blank s)) [
  | inl e ↦ rw e (record { returned = tt })
  | inr e ↦ rw e (record { returned = (refl, e) })
]
text-Returns null = record { returned = tt }
text-Returns (boolean b) = record { returned = tt }
text-Returns (integer z) = record { returned = tt }
text-Returns other = record { returned = tt }

pub member-Returns :
    {A : Type 0} (read : String → Option A) (c : Cell)
    → Returns (λ a. (s : String) × (c ≡ string s) × (read s ≡ some a)) (member_cell read c)
unfolding member_cell
member-Returns {A} read (string s) = record { returned = go (read s) refl }
  where
    go :
        (o : Option A)
        → read s ≡ o
        → Post
            (λ a. (t : String) × (string s ≡ string t) × (read t ≡ some a))
            (or_raise o state_malformed)
    go none h = tt
    go (some a) h = (s, refl, h)
member-Returns read null = record { returned = tt }
member-Returns read (boolean b) = record { returned = tt }
member-Returns read (integer z) = record { returned = tt }
member-Returns read other = record { returned = tt }

pub version-Returns : (c : Cell) → Returns (λ n. (c ≡ integer (pos n)) × (1 ≤ n)) (version_cell c)
unfolding version_cell
version-Returns (integer (pos n)) = elim (Bool-cases (leb 1 n)) [
  | inl e ↦ rw e (record { returned = (refl, leb→le 1 n e) })
  | inr e ↦ rw e (record { returned = tt })
]
version-Returns (integer (negsuc n)) = record { returned = tt }
version-Returns null = record { returned = tt }
version-Returns (boolean b) = record { returned = tt }
version-Returns (string s) = record { returned = tt }
version-Returns other = record { returned = tt }

pub count-Returns :
    (c : Cell) (minimum : ℕ)
    → Returns (λ n. (c ≡ integer (pos n)) × (minimum ≤ n)) (count_cell c minimum)
unfolding count_cell
count-Returns (integer (pos n)) minimum = elim (Bool-cases (leb minimum n)) [
  | inl e ↦ rw e (record { returned = (refl, leb→le minimum n e) })
  | inr e ↦ rw e (record { returned = tt })
]
count-Returns (integer (negsuc n)) minimum = record { returned = tt }
count-Returns null minimum = record { returned = tt }
count-Returns (boolean b) minimum = record { returned = tt }
count-Returns (string s) minimum = record { returned = tt }
count-Returns other minimum = record { returned = tt }

-- The results stand for the rows one by one.
abbrev pub Mapped : {A B : Type 0} → (A → B → Type 0) → List A → List B → Type 0
Mapped P [] [] = Unit
Mapped P [] (b ∷ bs) = ⊥
Mapped P (a ∷ rows) [] = ⊥
Mapped P (a ∷ rows) (b ∷ bs) = P a b × Mapped P rows bs

pub each-Returns :
    {A B : Type 0} {P : A → B → Type 0} {decode : A → Read B}
    → ((a : A) → Returns (P a) (decode a))
    → (rows : List A) → Returns (Mapped P rows) (each decode rows)
unfolding each
each-Returns h [] = record { returned = tt }
each-Returns h (a ∷ rows) =
    bind-Returns (h a) (λ b p. bind-Returns (each-Returns h rows) (λ bs q. ok-Returns (p, q)))

-- every result comes from a row
pub Mapped-from :
    {A B : Type 0} (P : A → B → Type 0) (rows : List A) (bs : List B)
    → Mapped P rows bs
    → (b : B) → In b bs
    → (a : A) × In a rows × P a b
Mapped-from P [] [] h b m = elim m [ ]
Mapped-from P [] (c ∷ bs) h b m = elim h [ ]
Mapped-from P (a ∷ rows) [] h b m = elim m [ ]
Mapped-from P (a ∷ rows) (c ∷ bs) h b (inl e) = (a, inl refl, rw e h.0)
Mapped-from P (a ∷ rows) (c ∷ bs) h b (inr m) =
    let (source, i, p) = Mapped-from P rows bs h.1 b m in (source, inr i, p)

-- no row is left out
pub Mapped-to :
    {A B : Type 0} (P : A → B → Type 0) (rows : List A) (bs : List B)
    → Mapped P rows bs
    → (a : A) → In a rows
    → (b : B) × In b bs × P a b
Mapped-to P [] [] h a m = elim m [ ]
Mapped-to P [] (c ∷ bs) h a m = elim m [ ]
Mapped-to P (r ∷ rows) [] h a m = elim h [ ]
Mapped-to P (r ∷ rows) (c ∷ bs) h a (inl e) = (c, inl refl, rw e h.0)
Mapped-to P (r ∷ rows) (c ∷ bs) h a (inr m) =
    let (b, i, p) = Mapped-to P rows bs h.1 a m in (b, inr i, p)

-- What `single` returns: nothing of no row, or the one row with its result.
abbrev pub One : {A B : Type 0} → (A → B → Type 0) → List A → Option (A × B) → Type 0
One P rows none = rows ≡ []
One P rows (some (a, b)) = (rows ≡ a ∷ []) × P a b

pub single-Returns :
    {A B : Type 0} {P : A → B → Type 0} {decode : A → Read B}
    → ((a : A) → Returns (P a) (decode a))
    → (rows : List A) → Returns (One P rows) (single decode rows)
unfolding single
single-Returns h [] = record { returned = refl }
single-Returns h (a ∷ []) = bind-Returns (h a) (λ b p. ok-Returns (refl, p))
single-Returns h (a ∷ b ∷ rows) = record { returned = tt }

-- A row of NULLs decodes to nothing, so that a template whose rows decode was answered.
pub Fetched-Mapped :
    {A B : Type 0} (P : A → B → Type 0) (answer : Answer) (nulls : A) (rows found : List A)
    (bs : List B)
    → ((b : B) → P nulls b → ⊥)
    → Fetched answer nulls rows found
    → Mapped P found bs
    → (answer ≡ reads) × Mapped P rows bs
Fetched-Mapped P answer nulls rows found bs refuses (inl e) h =
    (e.0, subst (λ rs. Mapped P rs bs) e.1 h)
Fetched-Mapped {A} {B} P answer nulls rows found bs refuses (inr e) h =
    absurd (go bs (subst (λ rs. Mapped P rs bs) e h))
  where
    go : (bs : List B) → Mapped P (nulls ∷ []) bs → ⊥
    go [] h = h
    go (b ∷ bs) h = refuses b h.0

pub Fetched-One :
    {A B : Type 0} (P : A → B → Type 0) (answer : Answer) (nulls : A) (rows found : List A)
    (o : Option (A × B))
    → ((b : B) → P nulls b → ⊥)
    → Fetched answer nulls rows found
    → One P found o
    → (answer ≡ reads) × One P rows o
Fetched-One P answer nulls rows found o refuses (inl e) h = (e.0, subst (λ rs. One P rs o) e.1 h)
Fetched-One {A} {B} P answer nulls rows found o refuses (inr e) h =
    absurd (go o (subst (λ rs. One P rs o) e h))
  where
    no_row : nulls ∷ [] ≡ [] → ⊥
    no_row h = cc

    one_row : (a : A) (b : B) → nulls ∷ [] ≡ a ∷ [] → P a b → ⊥
    one_row a b e h = let q : a ≡ nulls = cc in refuses b (subst (λ r. P r b) q h)

    go : (o : Option (A × B)) → One P (nulls ∷ []) o → ⊥
    go none h = no_row h
    go (some (a, b)) h = one_row a b h.0 h.1
