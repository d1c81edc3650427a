-- ===== src/Parser/Check.antt =====
-- `Parser::check` answers `success` exactly for the requests that have what their action requires.
use mathlib.Core.Bool.{false≢true}
use liquid.Base.{
  ◌≡◌, refl, ◌∙◌, ◌↔◌, inl, inr, true, List, [], ◌∷◌, Option, none, some, Bytes, arith, ◌==◌,
  bytes_eq, bytes_beq, bytes_beq_iff, Bool-cases, Option-cases, if◌then◌else◌,
}
use liquid.Base.Dict.{find, has}
use liquid.Base.Text.{codes}
use liquid.Parser.{
  Requirements, first_missing, then_check, check_params, check_type, check_action, check,
}
use liquid.Peers.{Request}

abbrev pub AllPresent : Request → List Bytes → Type 0
AllPresent req [] = Unit {0}
AllPresent req (name ∷ names) = (has (find name req) ≡ true) × AllPresent req names

-- A name that the table knows, with its parameters, all of them in the request.
abbrev pub Served : Requirements → Request → Bytes → Type 0
Served required req name =
    (params : List Bytes) × (find name required ≡ some params) × AllPresent req params

-- The action is in the table with its parameters; so is the type of an update.
abbrev pub Complete : Requirements → Request → Type 0
Complete required req =
    (action : Bytes) × (find (codes "action") req ≡ some action)
    × Served required req action
    × (action ≡ codes "update"
        → (type : Bytes) × (find (codes "type") req ≡ some type) × Served required req type)

first_missing_iff :
    (req : Request) (names : List Bytes) → (first_missing req names ≡ none) ↔ AllPresent req names
unfolding first_missing
first_missing_iff req [] = ((λ h. tt), (λ h. refl))
first_missing_iff req (name ∷ names) = elim (Bool-cases (has (find name req))) [
  | inl there ↦
      let (to, from) = first_missing_iff req names in
      ((λ h. (there, to (rw there at h))), (λ (a, b). rw there (from b)))
  | inr gone ↦ ((λ h. absurd (ground arith)), (λ (a, b). absurd (ground arith)))
]

-- The answer of one look into the table.
check_params_iff :
    (required : Requirements) (req : Request) (name absent following : Bytes)
    → (absent ≡ codes "success" → ⊥)
    → (check_params req absent (find name required) following ≡ codes "success")
      ↔ (Served required req name × (following ≡ codes "success"))
unfolding check_params then_check
check_params_iff required req name absent following ne = go (find name required) refl
  where
    go :
        (o : Option (List Bytes))
        → find name required ≡ o
        → (check_params req absent o following ≡ codes "success")
          ↔ (Served required req name × (following ≡ codes "success"))
    go none e = ((λ h. absurd (ne h)), (λ ((ps, q, _), _). absurd (ground arith)))
    go (some params) e = elim (Option-cases (first_missing req params)) [
      | inl all ↦ (
        (λ h. ((params, e, (first_missing_iff req params).0 all), rw (all, then_check) at h)),
        (λ (_, f). rw (all, then_check) f),
      )
      | inr (name', lacks) ↦ (
        (λ h. let h' = rw (lacks, then_check) at h in cc),
        (λ ((ps, q, present), _).
            let same : ps ≡ params = cc in
            let all = (first_missing_iff req params).1 (rw same at present) in cc),
      )
    ]

action_ne : codes "missing action" ≡ codes "success" → ⊥
unfolding bytes_beq
action_ne e = false≢true ((bytes_beq_iff (codes "missing action") (codes "success")).1 e)

type_ne : codes "missing update type" ≡ codes "success" → ⊥
unfolding bytes_beq
type_ne e = false≢true ((bytes_beq_iff (codes "missing update type") (codes "success")).1 e)

has_ne : {o : Option Bytes} {x : Bytes} → o ≡ none → o ≡ some x → ⊥
has_ne e h = absurd (ground arith)

check_type_iff :
    (required : Requirements) (req : Request)
    → (check_type required req (find (codes "type") req) ≡ codes "success")
      ↔ ((type : Bytes) × (find (codes "type") req ≡ some type) × Served required req type)
unfolding check_type
check_type_iff required req = go (find (codes "type") req) refl
  where
    go :
        (o : Option Bytes)
        → find (codes "type") req ≡ o
        → (check_type required req o ≡ codes "success")
          ↔ ((type : Bytes) × (find (codes "type") req ≡ some type) × Served required req type)
    go none e = ((λ h. absurd (action_ne h)), (λ (t, q, _). absurd (has_ne e q)))
    go (some type) e =
        let (to, from) =
          check_params_iff required req type (codes "missing update type") (codes "success")
            type_ne in
        (
          (λ h. (type, e, (to h).0)),
          (λ (t, q, served). let same : t ≡ type = cc in from (rw same at served, refl)),
        )

-- A request is complete for the table exactly if the answer is `success`.
pub check_iff :
    (required : Requirements) (req : Request)
    → (check required req ≡ codes "success") ↔ Complete required req
unfolding check check_action
check_iff required req = go (find (codes "action") req) refl
  where
    go :
        (o : Option Bytes)
        → find (codes "action") req ≡ o
        → (check_action required req o ≡ codes "success") ↔ Complete required req
    go none e = ((λ h. absurd (action_ne h)), (λ (t, q, _, _). absurd (has_ne e q)))
    go (some action) e =
        let (to, from) =
          check_params_iff required req action (codes "missing action")
            (if action == codes "update"
              then check_type required req (find (codes "type") req)
              else codes "success")
            action_ne in
        let (type_to, type_from) = check_type_iff required req in
        (
          (λ h.
              let (served, rest) = to h in
              (action, e, served, λ u. type_to (rw ((bytes_beq_iff _ _).1 u) at rest))),
          (λ (a, q, served, typed).
              let same : a ≡ action = cc in
              from (
                rw same at served,
                elim (Bool-cases (action == codes "update")) [
                  | inl u ↦ rw u (type_from (typed (same ∙ (bytes_beq_iff _ _).0 u)))
                  | inr n ↦ rw n
                ],
              )),
        )
