-- ===== src/Campaign/Completed.antt =====
-- Which attempt a journal shows completed.
use specode_review.Base.{
  ◌≡◌, ◌⊎◌, ◌↔◌, inl, inr, refl, sym, ap, ◌∙◌, Bool, true, false, ◌&&◌, ◌||◌, Option, none, some,
  List, [], ◌∷◌, arith, Text, text, text_equal, text_eq_iff, any, contains, length, ltb,
  if◌then◌else◌, Bool-cases, Option-cases,
}
use specode_review.Base.Dict.{lookup}
use specode_review.Errors.{ok}
use specode_review.Resources.{is_attempt_id}
use specode_review.Campaign.Records.{
  Value, str, number, another, Record, says, is_str, attempt_of, attempt_id, add_new, attempts_of,
  is_acceptance, is_failure, has, is_complete, first_complete, completed_attempt,
}

-- An order of iteration goes through the members of a set, each at least once.
abbrev pub KeepsMembers : (List Text → List Text) → Type 0
KeepsMembers iterate = (ids : List Text) (id : Text) → contains (iterate ids) id ≡ contains ids id

-- A journal without a failure, with the four records of one attempt, and no other accepted.
abbrev pub CompletedOnce : List Record → Text → Type 0
CompletedOnce records id =
    (any is_failure records ≡ false)
    × (is_attempt_id id ≡ true)
    × (is_complete records id ≡ true)
    × ((other : Text)
        → (other ≡ id)
          ⊎ ((is_attempt_id other ≡ false) ⊎ (has is_acceptance other records ≡ false)))

-- What the record says of its attempt.
says_attempt :
    (id : Text) (o : Option Value)
    → is_attempt_id id ≡ true
    → (is_str id o ≡ true) ↔ (attempt_of o ≡ some id)
says_attempt id none valid = ground arith
says_attempt id (some (str t)) valid = ground (arith, text_eq_iff t id)
says_attempt id (some (number n)) valid = ground arith
says_attempt id (some another) valid = ground arith

attempt-valid : (id : Text) (o : Option Value) → attempt_of o ≡ some id → is_attempt_id id ≡ true
attempt-valid id none h = absurd (cc h)
attempt-valid id (some (str t)) h = ground (arith, h)
attempt-valid id (some (number n)) h = absurd (cc h)
attempt-valid id (some another) h = absurd (cc h)

-- One record more.
add_new-contains :
    (o : Option Value) (named : Bool) (ids : List Text) (id : Text)
    → is_attempt_id id ≡ true
    → contains (if named then add_new (attempt_of o) ids else ids) id
      ≡ ((is_str id o && named) || contains ids id)
add_new-contains none named ids id valid = ground arith
add_new-contains (some (str t)) named ids id valid = ground (arith, text_eq_iff t id)
add_new-contains (some (number n)) named ids id valid = ground arith
add_new-contains (some another) named ids id valid = ground arith

add_new-valid :
    (o : Option Value) (named : Bool) (ids : List Text) (id : Text)
    → contains (if named then add_new (attempt_of o) ids else ids) id ≡ true
    → (is_attempt_id id ≡ true) ⊎ (contains ids id ≡ true)
add_new-valid none named ids id h = ground (arith, h)
add_new-valid (some (str t)) named ids id h = ground (arith, h, text_eq_iff t id)
add_new-valid (some (number n)) named ids id h = ground (arith, h)
add_new-valid (some another) named ids id h = ground (arith, h)

-- The set of the attempts holds those that a record names.
attempts_of-contains :
    (p : Record → Bool) (records : List Record) (id : Text)
    → is_attempt_id id ≡ true
    → contains (attempts_of p records) id ≡ has p id records
unfolding attempts_of
attempts_of-contains p [] id valid = refl
attempts_of-contains p (r ∷ records) id valid =
    add_new-contains (lookup (text "attempt_id") r) (p r) (attempts_of p records) id valid
    ∙ ap (λ (b : Bool). (says (text "attempt_id") id r && p r) || b)
        (attempts_of-contains p records id valid)

attempts_of-valid :
    (p : Record → Bool) (records : List Record) (id : Text)
    → contains (attempts_of p records) id ≡ true
    → is_attempt_id id ≡ true
unfolding attempts_of
attempts_of-valid p [] id h = absurd (cc h)
attempts_of-valid p (r ∷ records) id h =
    elim (add_new-valid (lookup (text "attempt_id") r) (p r) (attempts_of p records) id h) [
      | inl valid ↦ valid
      | inr older ↦ attempts_of-valid p records id older
    ]

-- A set of at most one member.
single :
    (ids : List Text) (id other : Text)
    → ltb 1 (length ids) ≡ false
    → contains ids id ≡ true
    → contains ids other ≡ true
    → other ≡ id
single [] id other h a b = absurd (cc a)
single (x ∷ []) id other h a b = ground (arith, a, b, text_eq_iff x id, text_eq_iff x other)
single (x ∷ y ∷ ids) id other h a b = absurd (ground (arith, h))

first_complete-some :
    (records : List Record) (ids : List Text) (id : Text)
    → first_complete records ids ≡ some id
    → (is_complete records id ≡ true) × (contains ids id ≡ true)
unfolding first_complete
first_complete-some records [] id h = absurd (cc h)
first_complete-some records (x ∷ ids) id h =
    ground (arith, h, text_eq_iff x id, first_complete-some records ids id)

first_complete-none :
    (records : List Record) (ids : List Text) (id : Text)
    → first_complete records ids ≡ none
    → contains ids id ≡ true
    → is_complete records id ≡ false
unfolding first_complete
first_complete-none records [] id h m = absurd (cc m)
first_complete-none records (x ∷ ids) id h m =
    ground (arith, h, m, text_eq_iff x id, first_complete-none records ids id)

-- No member stands twice.
abbrev IsOnce : List Text → Type 0
IsOnce [] = Unit
IsOnce (x ∷ ids) = (contains ids x ≡ false) × IsOnce ids

add_new-IsOnce :
    (o : Option Text) (named : Bool) (ids : List Text)
    → IsOnce ids
    → IsOnce (if named then add_new o ids else ids)
add_new-IsOnce none named ids once = ground (arith, once)
add_new-IsOnce (some t) named ids once = ground (arith, once)

attempts_of-IsOnce : (p : Record → Bool) (records : List Record) → IsOnce (attempts_of p records)
unfolding attempts_of
attempts_of-IsOnce p [] = tt
attempts_of-IsOnce p (r ∷ records) =
    add_new-IsOnce (attempt_id r) (p r) (attempts_of p records) (attempts_of-IsOnce p records)

at_most_one :
    (ids : List Text) (id : Text)
    → IsOnce ids
    → ((other : Text) → contains ids other ≡ true → other ≡ id)
    → ltb 1 (length ids) ≡ false
at_most_one [] id once same = refl
at_most_one (x ∷ []) id once same = refl
at_most_one (x ∷ y ∷ ids) id once same =
    let first : x ≡ id = same x (ground (arith, text_eq_iff x x)) in
    let second : y ≡ id = same y (ground (arith, text_eq_iff y y)) in
    absurd (ground (arith, once, first, second, text_eq_iff y x))

has-any :
    (p : Record → Bool) (id : Text) (records : List Record)
    → has p id records ≡ true
    → has (λ r. true) id records ≡ true
has-any p id [] h = absurd (cc h)
has-any p id (r ∷ records) h = ground (arith, h, has-any p id records)

accepted_of_complete :
    (records : List Record) (id : Text)
    → is_complete records id ≡ true
    → has is_acceptance id records ≡ true
unfolding is_complete
accepted_of_complete records id h = ground (arith, h)

module _ (iterate : List Text → List Text) (keeps : KeepsMembers iterate) (records : List Record)
    (id : Text) where
  once_of_completed : completed_attempt iterate records ≡ ok (some id) → CompletedOnce records id
  unfolding completed_attempt
  once_of_completed h =
      let sound : any is_failure records ≡ false = ground (arith, h) in
      let single_ : ltb 1 (length (attempts_of is_acceptance records)) ≡ false =
        ground (arith, h) in
      let found : first_complete records (iterate (attempts_of (λ r. true) records)) ≡ some id =
        ground (arith, h) in
      let (complete, member) =
        first_complete-some records (iterate (attempts_of (λ r. true) records)) id found in
      let valid =
        attempts_of-valid (λ r. true) records id
          (sym (keeps (attempts_of (λ r. true) records) id) ∙ member) in
      let mine =
        attempts_of-contains is_acceptance records id valid
        ∙ accepted_of_complete records id complete in
      (
        sound,
        valid,
        complete,
        λ other. elim (Bool-cases (is_attempt_id other)) [
          | inr invalid ↦ inr (inl invalid)
          | inl valid' ↦ elim (Bool-cases (has is_acceptance other records)) [
            | inr not_accepted ↦ inr (inr not_accepted)
            | inl accepted ↦ inl (
                single (attempts_of is_acceptance records) id other single_ mine
                  (attempts_of-contains is_acceptance records other valid' ∙ accepted))
          ]
        ],
      )

  completed_of_once : CompletedOnce records id → completed_attempt iterate records ≡ ok (some id)
  unfolding completed_attempt
  completed_of_once (sound, valid, complete, alone) =
      let everyone = attempts_of (λ r. true) records in
      let few : ltb 1 (length (attempts_of is_acceptance records)) ≡ false =
        at_most_one (attempts_of is_acceptance records) id
          (attempts_of-IsOnce is_acceptance records)
          (λ other m. alone_in other (attempts_of-valid is_acceptance records other m) (
            sym (
              attempts_of-contains is_acceptance records other
                (attempts_of-valid is_acceptance records other m))
            ∙ m)) in
      let member : contains (iterate everyone) id ≡ true =
        keeps everyone id
        ∙ attempts_of-contains (λ r. true) records id valid
        ∙ has-any is_acceptance id records (accepted_of_complete records id complete) in
      let found : first_complete records (iterate everyone) ≡ some id =
        elim (Option-cases (first_complete records (iterate everyone))) [
          | inl missing ↦ absurd (
              ground
                (arith, complete, first_complete-none records (iterate everyone) id missing member))
          | inr (x, some_) ↦
              let (complete', member') = first_complete-some records (iterate everyone) x some_ in
              some_
              ∙ ap some (
                  alone_in x
                    (attempts_of-valid (λ r. true) records x (sym (keeps everyone x) ∙ member'))
                    (accepted_of_complete records x complete'))
        ] in
      ground (arith, sound, few, found)
    where
      alone_in :
          (other : Text)
          → is_attempt_id other ≡ true
          → has is_acceptance other records ≡ true
          → other ≡ id
      alone_in other valid' accepted = elim (alone other) [
        | inl same ↦ same
        | inr (inl invalid) ↦ absurd (ground (arith, invalid, valid'))
        | inr (inr not_accepted) ↦ absurd (ground (arith, not_accepted, accepted))
      ]

  -- A journal is found to show an attempt completed exactly if it has no failure, its acceptance, its
  -- confirmed cleanup, its publication and its success, and no other attempt that was accepted; so the
  -- order in which the attempts are looked at does not matter.
  pub completed_attempt_iff :
      (completed_attempt iterate records ≡ ok (some id)) ↔ CompletedOnce records id
  completed_attempt_iff = (once_of_completed, completed_of_once)
