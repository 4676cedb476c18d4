-- ===== src/Users/Pending.antt =====
-- The traffic of a user that the table still has to report, and the table's invariant.
use ne_xt_server.Base.{
  ℕ, ◌+◌, ◌≤◌, ◌<◌, ◌≡◌, refl, sym, ◌∙◌, ite, false, List, [], ◌∷◌, ◌++◌, arith, All,
}
use native.Mathlib.Decide.{dec_lt}
use ne_xt_server.Adapter.{UserTraffic}
use ne_xt_server.Base.Int.{ℤ, ℤ_discrete}
use ne_xt_server.Base.Sums.{sum, values, occurrences}
use ne_xt_server.Base.Keys.{Distinct}
use ne_xt_server.Users.State.{UserState}
use ne_xt_server.Users.Table.{Table}

pub data Direction : Type 0 where
  up down : Direction

abbrev pub counter : {L : Type 0} → Direction → UserState L → ℕ
counter up u = u.upload
counter down u = u.download

abbrev pub amount : Direction → UserTraffic → ℕ
amount up item = item.upload
amount down item = item.download

-- What the state behind a pointer counts for a user.
abbrev pub weight : {L : Type 0} → Direction → ℤ → (ℕ → UserState L) → ℕ → ℕ
weight d id states p = ite (ℤ_discrete (states p).id id) (counter d (states p)) 0

-- The states that the table can still report.
abbrev pub tracked : {L : Type 0} → Table L → List ℕ
tracked t = values ℤ_discrete t.current ++ t.retired

unfoldable pub pending : {L : Type 0} → Direction → ℤ → Table L → ℕ
pending d id t = sum (weight d id t.states) (tracked t)

abbrev pub reported_item : Direction → ℤ → UserTraffic → ℕ
reported_item d id item = ite (ℤ_discrete item.user_id id) (amount d item) 0

-- What a list of items reports of a user.
unfoldable pub reported : Direction → ℤ → List UserTraffic → ℕ
reported d id [] = 0
reported d id (item ∷ items) = reported_item d id item + reported d id items

pub reported-append :
    (d : Direction) (id : ℤ) (xs ys : List UserTraffic)
    → reported d id (xs ++ ys) ≡ reported d id xs + reported d id ys
unfolding reported
reported-append d id [] ys = omega arith
reported-append d id (x ∷ xs) ys = omega (arith, reported-append d id xs ys)

abbrev pub IsBlank : {L : Type 0} → UserState L → Type 0
IsBlank u = (u.upload ≡ 0) × (u.download ≡ 0)

-- A map entry points to the state of its ID, which is not canceled, at a pointer that is taken.
abbrev pub IsServed : {L : Type 0} → Table L → ℤ × ℕ → Type 0
IsServed t e = ((t.states e.1).id ≡ e.0) × ((t.states e.1).canceled ≡ false) × (e.1 < t.next)

-- No state is tracked twice, free pointers are not tracked and their states count nothing, no ID is
-- served twice, and an ID is served by its own state, which is not canceled.
pub record IsValid {L : Type 0} (t : Table L) : Type 0 where
  pub once : (p : ℕ) → occurrences p (tracked t) ≤ 1
  pub bounded : (p : ℕ) → t.next ≤ p → occurrences p (tracked t) ≡ 0
  pub blank : (p : ℕ) → t.next ≤ p → IsBlank (t.states p)
  pub distinct : Distinct ℤ_discrete t.current
  pub served : All (IsServed t) t.current

-- The second table has the states of the first, with the same counts, and maybe new ones.
pub record Extends {L : Type 0} (t t' : Table L) : Type 0 where
  pub grown : t.next ≤ t'.next
  pub same_upload : (p : ℕ) → (t'.states p).upload ≡ (t.states p).upload
  pub same_download : (p : ℕ) → (t'.states p).download ≡ (t.states p).download
  pub same_id : (p : ℕ) → p < t.next → (t'.states p).id ≡ (t.states p).id

module _ {L : Type 0} where
  pub Extends-refl : (t : Table L) → Extends t t
  Extends-refl t = record {
    grown = omega arith;
    same_upload = λ p. refl;
    same_download = λ p. refl;
    same_id = λ p h. refl;
  }

  pub Extends-trans : (t t' t'' : Table L) → Extends t t' → Extends t' t'' → Extends t t''
  Extends-trans t t' t'' x y = record {
    grown = omega (arith, x.grown, y.grown);
    same_upload = λ p. y.same_upload p ∙ x.same_upload p;
    same_download = λ p. y.same_download p ∙ x.same_download p;
    same_id = λ p h. y.same_id p (omega (arith, x.grown)) ∙ x.same_id p h;
  }

  pub Extends-IsBlank :
      (t t' : Table L)
      → Extends t t'
      → ((p : ℕ) → t.next ≤ p → IsBlank (t.states p))
      → (p : ℕ) → t'.next ≤ p
      → IsBlank (t'.states p)
  Extends-IsBlank t t' x blank p h =
      let (a, b) = blank p (omega (arith, x.grown)) in (x.same_upload p ∙ a, x.same_download p ∙ b)

  -- A state with nothing to report weighs nothing.
  pub weight_blank :
      (d : Direction) (id : ℤ) (states : ℕ → UserState L) (p : ℕ)
      → IsBlank (states p)
      → weight d id states p ≡ 0
  weight_blank up id states p h = ground arith
  weight_blank down id states p h = ground arith

  Extends-weight_taken :
      (d : Direction) (id : ℤ) (t t' : Table L)
      → Extends t t'
      → (p : ℕ) → p < t.next
      → weight d id t'.states p ≡ weight d id t.states p
  Extends-weight_taken up id t t' x p h = ground (arith, x.same_id p h, x.same_upload p)
  Extends-weight_taken down id t t' x p h = ground (arith, x.same_id p h, x.same_download p)

  pub Extends-weight :
      (d : Direction) (id : ℤ) (t t' : Table L)
      → Extends t t'
      → ((p : ℕ) → t.next ≤ p → IsBlank (t.states p))
      → (p : ℕ) → weight d id t'.states p ≡ weight d id t.states p
  Extends-weight d id t t' x blank p = elim (dec_lt p t.next) [
    | yes h ↦ Extends-weight_taken d id t t' x p h
    | no h ↦
        weight_blank d id t'.states p
          (let (a, b) = blank p (omega arith) in (x.same_upload p ∙ a, x.same_download p ∙ b))
        ∙ sym (weight_blank d id t.states p (blank p (omega arith)))
  ]
