-- ===== src/Actions/Contract.antt =====
-- What an accepted intent is, and which intents are refused (actions.py, ActionIntentValidator).
use knowledge_agent.Prelude.{
  ◌≤◌, String, Bool, true, false, not, Option, none, some, List, [], ◌∷◌, ok, err, string_eq,
  if◌then◌else◌, length, member, In, member-In, any-true, is_blank, codes, ◌≡◌, refl, arith,
  Bool-cases, inl, inr, ap, ◌==◌, eqb→eq,
}
use knowledge_agent.Prelude.Dict.{Dict, lookup, keys, same_set, meets}
use knowledge_agent.Actions.{
  ActionName, name_text, name_eq, ActionParameter, spec_of, Object, text, other, Arguments,
  not_mapping, mapping, Diagnostic, ValidatedAction, text_keys, valid_value, check_value,
  check_args, validated, validate_items, validate_arguments, validate, registered,
  identity_arguments, validate_name, validate_text_items, forbidden_arguments, finish,
  parameter_names,
}

-- A closed value: a non-blank text of at most 128 characters, in the parameter's enumeration.
pub record IsClosed (p : ActionParameter) (value : String) : Type 0 where
  pub not_blank : is_blank value ≡ false
  pub bounded : length (codes value) ≤ 128
  pub listed : (values : List String) → p.enum ≡ some values → In value values

-- The arguments are exactly the declared parameters, in their order, each with a closed value
-- that is verbatim the one given.
abbrev pub Conforms : List ActionParameter → Dict Object → Dict String → Type 0
Conforms [] given [] = Unit
Conforms [] given (a ∷ args) = ⊥
Conforms (p ∷ ps) given [] = ⊥
Conforms (p ∷ ps) given ((k, v) ∷ args) =
    (k ≡ p.name) × IsClosed p v × (lookup p.name given ≡ some (text v)) × Conforms ps given args

valid_value-IsClosed : (p : ActionParameter) (v : String) → valid_value p v ≡ true → IsClosed p v
unfolding valid_value
valid_value-IsClosed p v h = record {
  not_blank = ground arith;
  bounded = ground arith;
  listed = λ values e. (member-In v values).0 (ground (arith, e));
}

check_value-some :
    (p : ActionParameter) (o : Option Object) (v : String)
    → check_value p o ≡ some v
    → (valid_value p v ≡ true) × (o ≡ some (text v))
unfolding check_value
check_value-some p none v h = cc
check_value-some p (some other) v h = cc
check_value-some p (some (text s)) v h = ground arith

check_args-cons :
    (p : ActionParameter) (ps : List ActionParameter) (d : Dict Object) (args : Dict String)
    → check_args (p ∷ ps) d ≡ some args
    → (v : String) × (rest : Dict String) × (check_value p (lookup p.name d) ≡ some v)
      × (check_args ps d ≡ some rest)
      × (args ≡ (p.name, v) ∷ rest)
unfolding check_args
check_args-cons p ps d args h = go (check_value p (lookup p.name d)) (check_args ps d) refl refl h
  where
    go :
        (c : Option String) (r : Option (Dict String))
        → check_value p (lookup p.name d) ≡ c
        → check_args ps d ≡ r
        → (elim c [
          | none ↦ none
          | some value ↦ elim r [ none ↦ none | some rest ↦ some ((p.name, value) ∷ rest) ]
        ])
          ≡ some args
        → (v : String) × (rest : Dict String) × (check_value p (lookup p.name d) ≡ some v)
          × (check_args ps d ≡ some rest)
          × (args ≡ (p.name, v) ∷ rest)
    go none r ec er q = cc
    go (some v) none ec er q = cc
    go (some v) (some rest) ec er q = (v, rest, ec, er, cc)

pub check_args-Conforms :
    (ps : List ActionParameter) (d : Dict Object) (args : Dict String)
    → check_args ps d ≡ some args
    → Conforms ps d args
check_args-Conforms [] d [] h = tt
check_args-Conforms [] d (a ∷ args) h = absurd (nothing_more h)
  where
    nothing_more : check_args [] d ≡ some (a ∷ args) → ⊥
    nothing_more q = unfold check_args in cc
check_args-Conforms (p ∷ ps) d args h =
    let (v, rest, ec, er, e) = check_args-cons p ps d args h in
    let (valid, at) = check_value-some p (lookup p.name d) v ec in
    rw e (refl, valid_value-IsClosed p v valid, at, check_args-Conforms ps d rest er)

-- The arguments that a mapping of texts stands for, as the caller passes them.
unfoldable pub items_of : Dict Object → List (Object × Object)
items_of [] = []
items_of ((k, v) ∷ d) = (text k, v) ∷ items_of d

text_keys-cons :
    (k : String) (v : Object) (items : List (Object × Object)) (d : Dict Object)
    → text_keys ((text k, v) ∷ items) ≡ some d
    → (e : Dict Object) × (text_keys items ≡ some e) × (d ≡ (k, v) ∷ e)
unfolding text_keys
text_keys-cons k v items d h = go (text_keys items) h
  where
    go :
        (o : Option (Dict Object))
        → (elim o [ none ↦ none | some e ↦ some ((k, v) ∷ e) ]) ≡ some d
        → (e : Dict Object) × (o ≡ some e) × (d ≡ (k, v) ∷ e)
    go none q = cc
    go (some e) q = (e, refl, cc)

-- The mapping that was read is the one given.
text_keys-items :
    (items : List (Object × Object)) (d : Dict Object)
    → text_keys items ≡ some d
    → items ≡ items_of d
unfolding text_keys items_of
text_keys-items [] d h = let q : [] ≡ d = cc in rw (← q) refl
text_keys-items ((text k, v) ∷ items) d h =
    let (e, r, q) = text_keys-cons k v items d h in
    rw q (ap (λ (x : List (Object × Object)). (text k, v) ∷ x) (text_keys-items items e r))
text_keys-items ((other, v) ∷ items) d h = absurd (no h)
  where
    no : none ≡ some d → ⊥
    no h = cc

registered-some : (s : String) (name : ActionName) → registered s ≡ some name → s ≡ name_text name
unfolding registered
registered-some s name h = elim (Bool-cases (s == "create_return")) [
  | inl e ↦
      let q : some ActionName.create_return ≡ some name = rw e at h in
      let n : ActionName.create_return ≡ name = cc in rw (← n) (eqb→eq s "create_return" e)
  | inr e ↦ elim (Bool-cases (s == "create_exchange")) [
    | inl f ↦
        let q : some ActionName.create_exchange ≡ some name = rw (e, f) at h in
        let n : ActionName.create_exchange ≡ name = cc in rw (← n) (eqb→eq s "create_exchange" f)
    | inr f ↦ elim (Bool-cases (s == "escalate_to_human")) [
      | inl g ↦
          let q : some ActionName.escalate_to_human ≡ some name = rw (e, f, g) at h in
          let n : ActionName.escalate_to_human ≡ name = cc in
          rw (← n) (eqb→eq s "escalate_to_human" g)
      | inr g ↦ absurd (no (rw (e, f, g) at h))
    ]
  ]
]
  where
    no : none ≡ some name → ⊥
    no h = cc

-- The checks that an accepted intent has passed, with the mapping that it was read from.
pub record IsAccepted (effective : List ActionName) (o : Object) (arguments : Arguments)
    (a : ValidatedAction) : Type 0 where
  pub given : Dict Object
  pub read_as : arguments ≡ mapping (items_of given)
  pub of_name : o ≡ text (name_text a.action_name)
  pub granted : In a.action_name effective
  pub conforms : Conforms (spec_of a.action_name).parameters given a.args
  pub targets : a ≡ validated a.action_name a.args
  pub no_identity : meets (keys given) identity_arguments ≡ false
  pub no_forbidden : meets (keys given) forbidden_arguments ≡ false
  pub exact_keys : same_set (keys given) (parameter_names (spec_of a.action_name).parameters) ≡ true

finish-ok :
    (name : ActionName) (args : Option (Dict String)) (a : ValidatedAction)
    → finish name args ≡ ok a
    → (args ≡ some a.args) × (a.action_name ≡ name) × (a ≡ validated name a.args)
unfolding validated
finish-ok name none a h = cc
finish-ok name (some args) a h = ground arith

validate_items-ok :
    (name : ActionName) (d : Dict Object) (a : ValidatedAction)
    → validate_items name d ≡ ok a
    → (meets (keys d) identity_arguments ≡ false)
      × (meets (keys d) forbidden_arguments ≡ false)
      × (same_set (keys d) (parameter_names (spec_of name).parameters) ≡ true)
      × (finish name (check_args (spec_of name).parameters d) ≡ ok a)
unfolding validate_items
validate_items-ok name d a h =
    go (meets (keys d) identity_arguments) (meets (keys d) forbidden_arguments)
      (same_set (keys d) (parameter_names (spec_of name).parameters)) refl refl refl h
  where
    go :
        (i f s : Bool)
        → meets (keys d) identity_arguments ≡ i
        → meets (keys d) forbidden_arguments ≡ f
        → same_set (keys d) (parameter_names (spec_of name).parameters) ≡ s
        → (if i
            then err Diagnostic.identity_argument
            else if f
            then err Diagnostic.forbidden_action_argument
            else if not s
            then err Diagnostic.invalid_action_arguments
            else finish name (check_args (spec_of name).parameters d))
          ≡ ok a
        → (meets (keys d) identity_arguments ≡ false)
          × (meets (keys d) forbidden_arguments ≡ false)
          × (same_set (keys d) (parameter_names (spec_of name).parameters) ≡ true)
          × (finish name (check_args (spec_of name).parameters d) ≡ ok a)
    go true f s ei ef es q = cc
    go false true s ei ef es q = cc
    go false false false ei ef es q = cc
    go false false true ei ef es q = (ei, ef, es, q)

validate_arguments-steps :
    (name : ActionName) (arguments : Arguments) (a : ValidatedAction)
    → validate_arguments name arguments ≡ ok a
    → (d : Dict Object) × (arguments ≡ mapping (items_of d)) × (validate_items name d ≡ ok a)
unfolding validate_arguments
validate_arguments-steps name not_mapping a h = cc
validate_arguments-steps name (mapping items) a h = go (text_keys items) refl h
  where
    go :
        (o : Option (Dict Object))
        → text_keys items ≡ o
        → validate_text_items name o ≡ ok a
        → (d : Dict Object) × (mapping items ≡ mapping (items_of d))
          × (validate_items name d ≡ ok a)
    go none e q = cc
    go (some d) e q = (d, ap mapping (text_keys-items items d e), q)

validate_name-steps :
    (effective : List ActionName) (o : Option ActionName) (arguments : Arguments)
    (a : ValidatedAction)
    → validate_name effective o arguments ≡ ok a
    → (name : ActionName) × (d : Dict Object) × (o ≡ some name)
      × (arguments ≡ mapping (items_of d))
      × (In name effective)
      × (validate_items name d ≡ ok a)
validate_name-steps effective none arguments a h = cc
validate_name-steps effective (some name) arguments a h =
    elim (Bool-cases (member name effective)) [
      | inl e ↦
          let (d, m, q) = validate_arguments-steps name arguments a (rw e at h) in
          (name, d, refl, m, (member-In name effective).0 e, q)
      | inr e ↦ absurd (refused (rw e at h))
    ]
  where
    refused : err Diagnostic.action_not_allowed ≡ ok a → ⊥
    refused q = cc

validate-steps :
    (effective : List ActionName) (o : Object) (arguments : Arguments) (a : ValidatedAction)
    → validate effective o arguments ≡ ok a
    → (name : ActionName) × (d : Dict Object) × (o ≡ text (name_text name))
      × (arguments ≡ mapping (items_of d))
      × (In name effective)
      × (validate_items name d ≡ ok a)
unfolding validate
validate-steps effective other arguments a h = cc
validate-steps effective (text s) arguments a h =
    let (name, d, r, m, g, q) = validate_name-steps effective (registered s) arguments a h in
    (name, d, ap text (registered-some s name r), m, g, q)

-- An accepted intent names a granted action, and its arguments are a mapping with text keys, which
-- are the declared parameters and no identity, authority, approval or system name; the accepted
-- arguments are the declared parameters in their order, each with the closed value that the mapping
-- has, verbatim, and the targets are read from them.
pub validate-IsAccepted :
    (effective : List ActionName) (o : Object) (arguments : Arguments) (a : ValidatedAction)
    → validate effective o arguments ≡ ok a
    → IsAccepted effective o arguments a
validate-IsAccepted effective o arguments a h =
    let (name, d, object, passed, granted, items) = validate-steps effective o arguments a h in
    let (ident, forb, exact, fin) = validate_items-ok name d a items in
    let (args, same, targets) = finish-ok name (check_args (spec_of name).parameters d) a fin in
    record {
      given = d;
      read_as = passed;
      of_name = rw same object;
      granted = rw same granted;
      conforms = rw same (check_args-Conforms (spec_of name).parameters d a.args args);
      targets = rw (← same) at targets;
      no_identity = ident;
      no_forbidden = forb;
      exact_keys = rw same exact;
    }

pub text_keys-items_of : (d : Dict Object) → text_keys (items_of d) ≡ some d
unfolding text_keys items_of
text_keys-items_of [] = refl
text_keys-items_of ((k, v) ∷ d) = ground (arith, text_keys-items_of d)

pub registered-name_text : (name : ActionName) → registered (name_text name) ≡ some name
unfolding registered
registered-name_text ActionName.create_return = refl
registered-name_text ActionName.create_exchange = refl
registered-name_text ActionName.escalate_to_human = refl

-- A granted action with text keys is decided by its keys and values.
pub validate-eq-items :
    (effective : List ActionName) (name : ActionName) (d : Dict Object)
    → In name effective
    → validate effective (text (name_text name)) (mapping (items_of d)) ≡ validate_items name d
unfolding validate validate_arguments
validate-eq-items effective name d granted =
    rw (registered-name_text name, (member-In name effective).1 granted, text_keys-items_of d)

-- Where the action is granted and the arguments are a mapping with text keys, a key that names an
-- identity is refused as such, whatever else the arguments hold; a key that names an authority, an
-- approval or a system id, where no key names an identity, as forbidden.
pub validate_refuses_smuggled_names :
    (effective : List ActionName) (name : ActionName) (d : Dict Object) (k : String)
    → In name effective
    → In k (keys d)
    → (In k identity_arguments
        → validate effective (text (name_text name)) (mapping (items_of d))
          ≡ err Diagnostic.identity_argument)
      × (In k forbidden_arguments
          → meets (keys d) identity_arguments ≡ false
          → validate effective (text (name_text name)) (mapping (items_of d))
            ≡ err Diagnostic.forbidden_action_argument)
unfolding validate_items meets
validate_refuses_smuggled_names effective name d k granted key = (
  λ m. rw (validate-eq-items effective name d granted) (
      rw (
        any-true (λ x. member x identity_arguments) (keys d) k key
          ((member-In k identity_arguments).1 m))),
  λ m no_identity. rw (validate-eq-items effective name d granted) (
      rw (
        no_identity,
        any-true (λ x. member x forbidden_arguments) (keys d) k key
            ((member-In k forbidden_arguments).1 m),
      )),
)
