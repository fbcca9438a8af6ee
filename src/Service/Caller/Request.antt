-- ===== src/Service/Caller/Request.antt =====
-- Registering a request: the tables stay well-formed, and its future is its own.
use rosy.Base.{
  ℕ, ◌+◌, ◌%◌, ◌<◌, ◌≡◌, refl, subst, false, none, some, ◌⊎◌, inl, inr, ℕ_discrete, arith,
  if◌then◌else◌, holds,
}
use native.Mathlib.Nat.{mod-lt}
use rosy.Base.Dict.{Dict, set, contains}
use rosy.Base.Dict.Laws.{Distinct-set}
use rosy.Base.Exec.{ok, err, service_request_error}
use rosy.Service.Caller.{Caller, pending, pending_of, enter_request, add_future}
use rosy.Service.Caller.Ids.{get_new_request_id_cases, IdInUse}
use rosy.Service.Caller.Valid.{
  IsValid, registered, registered-add, is_key, if-Distinct, pending_of-set,
}

module _ {Data : Type 0} (c : Caller Data) (reader id : ℕ) (v : IsValid c)
    (small : id < c.max_request_ids) where
  abbrev added : Caller Data
  added = (add_future reader id c).1

  -- A registration in the new tables is the new one, or an old one elsewhere.
  new_or_old :
      (r i k : ℕ)
      → registered added r i ≡ some k
      → ((r ≡ reader) × (i ≡ id) × (k ≡ c.fresh)) ⊎ (registered c r i ≡ some k)
  new_or_old r i k h = ground (arith, h, registered-add c reader id r i)

  ids_below : (r i k : ℕ) → registered added r i ≡ some k → i < c.max_request_ids
  ids_below r i k h = elim (new_or_old r i k h) [
    | inl (_, e, _) ↦ omega arith
    | inr o ↦ v.ids_below r i k o
  ]

  futures_below : (r i k : ℕ) → registered added r i ≡ some k → k < c.fresh + 1
  futures_below r i k h = elim (new_or_old r i k h) [
    | inl (_, _, e) ↦ omega arith
    | inr o ↦ omega (arith, v.futures_below r i k o)
  ]

  futures_distinct :
      (r i r' i' k : ℕ)
      → registered added r i ≡ some k
      → registered added r' i' ≡ some k
      → (r ≡ r') × (i ≡ i')
  futures_distinct r i r' i' k h h' = elim (new_or_old r i k h) [
    | inl (a, b, e) ↦ elim (new_or_old r' i' k h') [
      | inl (a', b', _) ↦ (omega arith, omega arith)
      | inr o ↦ absurd (omega (arith, v.futures_below r' i' k o))
    ]
    | inr o ↦ elim (new_or_old r' i' k h') [
      | inl (_, _, e) ↦ absurd (omega (arith, v.futures_below r i k o))
      | inr o' ↦ v.futures_distinct r i r' i' k o o'
    ]
  ]

  pub add-IsValid : IsValid added
  unfolding add_future
  add-IsValid = record {
    next_below = v.next_below;
    readers_distinct = Distinct-set ℕ_discrete reader table c.response_futures v.readers_distinct;
    ids_distinct = λ r. rw (pending_of-set c r reader table) (
        if-Distinct (holds (ℕ_discrete r reader)) table (pending_of r c)
          (Distinct-set ℕ_discrete id c.fresh (pending_of reader c) (v.ids_distinct reader))
          (v.ids_distinct r));
    ids_below = ids_below;
    futures_below = futures_below;
    futures_distinct = futures_distinct;
  }
    where
      table : Dict ℕ ℕ
      table = set ℕ_discrete id c.fresh (pending_of reader c)

module _ {Data : Type 0} where
  -- A request got an id that was free on its reader and a new future, and changed no other
  -- registration.
  pub record Entered (c : Caller Data) (reader id : ℕ) (c' : Caller Data) : Type 0 where
    pub entered : enter_request reader c ≡ (ok (id, c.fresh), c')
    pub valid : IsValid c'
    pub was_free : registered c reader id ≡ none
    pub waits : (c'.futures c.fresh) ≡ pending
    pub kept : (k : ℕ) → k < c.fresh → c'.futures k ≡ c.futures k
    pub registrations :
        (r i : ℕ)
        → registered c' r i ≡ (if is_key reader id r i then some c.fresh else registered c r i)

  free_of :
      (c : Caller Data) (reader id : ℕ)
      → contains ℕ_discrete id (pending_of reader c) ≡ false
      → registered c reader id ≡ none
  free_of c reader id h = ground arith

  abbrev moved : Caller Data → ℕ → Caller Data
  moved c n = record c { next_request_id = n }

  pub moved-IsValid :
      (c : Caller Data) (n : ℕ) → n < c.max_request_ids → IsValid c → IsValid (moved c n)
  moved-IsValid c n h v = record {
    next_below = h;
    readers_distinct = v.readers_distinct;
    ids_distinct = v.ids_distinct;
    ids_below = v.ids_below;
    futures_below = v.futures_below;
    futures_distinct = v.futures_distinct;
  }

  -- A call registers its request, or raises because every id is in use on the reader.
  pub enter_request_cases :
      (c : Caller Data) (reader : ℕ) (v : IsValid c)
      → ((id : ℕ) × (c' : Caller Data) × (id < c.max_request_ids) × Entered c reader id c')
        ⊎ ((n : ℕ) × (n < c.max_request_ids)
            × (enter_request reader c
                ≡ (err service_request_error, record c { next_request_id = n }))
            × ((id : ℕ) → id < c.max_request_ids → IdInUse reader c v.next_below id))
  unfolding enter_request
  enter_request_cases c reader v = elim (get_new_request_id_cases reader c v.next_below) [
    | inl (id, e, small, free) ↦
        let n = (id + 1) % c.max_request_ids in
        let m = moved c n in
        inl (
          id,
          (add_future reader id m).1,
          small,
          record {
            entered = rw e refl;
            valid =
                add-IsValid m reader id
                  (moved-IsValid c n (mod-lt (id + 1) (omega (arith, v.next_below))) v) small;
            was_free = free_of c reader id free;
            waits = ground arith;
            kept = λ k h. ground arith;
            registrations = λ r i. registered-add m reader id r i;
          },
        )
    | inr (n, small, e, all) ↦ inr (n, small, rw e refl, all)
  ]

  -- A request that was registered is one as `Entered` says.
  pub Entered-of :
      (c : Caller Data) (reader : ℕ) {id k : ℕ} {c' : Caller Data}
      → IsValid c
      → enter_request reader c ≡ (ok (id, k), c')
      → Entered c reader id c'
  Entered-of c reader {id} {k} {c'} v h = elim (enter_request_cases c reader v) [
    | inl (i, d, small, e) ↦
        let same_id : i ≡ id = cc (h, e.entered) in
        let same_state : d ≡ c' = cc (h, e.entered) in
        subst (λ x. Entered c reader x c') same_id (subst (λ x. Entered c reader i x) same_state e)
    | inr (n, small, e, all) ↦ absurd (cc (h, e))
  ]

  -- Its id is below the limit.
  pub entered-lt :
      (c : Caller Data) (reader : ℕ) {id k : ℕ} {c' : Caller Data}
      → IsValid c
      → enter_request reader c ≡ (ok (id, k), c')
      → id < c.max_request_ids
  entered-lt c reader {id} {k} {c'} v h = elim (enter_request_cases c reader v) [
    | inl (i, d, small, e) ↦
        let same_id : i ≡ id = cc (h, e.entered) in subst (λ x. x < c.max_request_ids) same_id small
    | inr (n, small, e, all) ↦ absurd (cc (h, e))
  ]
