-- ===== src/Ids.antt =====
-- aftersales/ids.py and the patterns of aftersales/approval.py: the formats of ids, keys and
-- operator references, and the identity of a request.
use knowledge_agent.Prelude.{
  ℕ, String, Bool, false, not, ◌&&◌, ◌||◌, Option, none, some, List, [], ◌∷◌, if◌then◌else◌, leb,
  nat_eqb, all, length, codes, is_blank,
}

-- the rest of a text after a literal
unfoldable pub after : List ℕ → List ℕ → Option (List ℕ)
after [] cs = some cs
after (p ∷ ps) [] = none
after (p ∷ ps) (c ∷ cs) = let rest = after ps cs in if nat_eqb p c then rest else none

-- `$` accepts one final newline.
unfoldable pub body : List ℕ → List ℕ
body [] = []
body (c ∷ []) = if nat_eqb c 10 then [] else c ∷ []
body (c ∷ d ∷ cs) = c ∷ body (d ∷ cs)

abbrev within : ℕ → ℕ → ℕ → Bool
within lo hi c = leb lo c && leb c hi

-- `[class]{lo,hi}$`
unfoldable pub repeated : (ℕ → Bool) → ℕ → ℕ → List ℕ → Bool
repeated p lo hi cs = all p (body cs) && within lo hi (length (body cs))

abbrev matches : (ℕ → Bool) → ℕ → ℕ → Option (List ℕ) → Bool
matches p lo hi none = false
matches p lo hi (some cs) = repeated p lo hi cs

abbrev upper_hex : ℕ → Bool
upper_hex c = within b'0' b'9' c || within b'A' b'F' c

abbrev lower_hex : ℕ → Bool
lower_hex c = within b'0' b'9' c || within b'a' b'f' c

abbrev ref_char : ℕ → Bool
ref_char c = within b'a' b'z' c || within b'0' b'9' c || nat_eqb c b'-'

abbrev request_start : ℕ → Bool
request_start c = within b'A' b'Z' c || within b'a' b'z' c || within b'0' b'9' c

abbrev request_char : ℕ → Bool
request_char c =
    request_start c || nat_eqb c b'.' || nat_eqb c b'_' || nat_eqb c b':' || nat_eqb c b'-'

-- PENDING_ACTION_ID_PATTERN
unfoldable pub is_pending_action_id : String → Bool
is_pending_action_id s = matches upper_hex 16 32 (after (codes "PA-") (codes s))

-- ID_PATTERN
unfoldable pub is_id : String → Bool
is_id s =
    matches upper_hex 16 32 (after (codes "PA-") (codes s))
    || matches upper_hex 16 32 (after (codes "AS6-") (codes s))
    || matches upper_hex 16 32 (after (codes "HT-") (codes s))
    || matches upper_hex 16 32 (after (codes "RC-") (codes s))

-- IDEMPOTENCY_KEY_PATTERN
unfoldable pub is_key : String → Bool
is_key s = matches lower_hex 64 64 (after (codes "s6k1-") (codes s))

-- APPROVER_REF_PATTERN
unfoldable pub is_approver_ref : String → Bool
is_approver_ref s = matches ref_char 1 32 (after (codes "op-") (codes s))

-- REQUEST_ID_PATTERN
unfoldable pub request_id_of : List ℕ → Bool
request_id_of [] = false
request_id_of (c ∷ cs) = request_start c && repeated request_char 0 63 cs

pub record RequestIdentity : Type 0 where
  pub persona_id : String
  pub request_id : String

-- `RequestIdentity(...)`; `none` is its ValueError.
unfoldable pub request_identity : String → String → Option RequestIdentity
request_identity persona_id request_id =
    if not (is_blank persona_id) && request_id_of (codes request_id)
    then some (record { persona_id = persona_id; request_id = request_id })
    else none
