-- ===== src/Service/Caller/Ids.antt =====
-- Request ids: which id a call gets, and when there is none left.
use rosy.Base.{
  ℕ, zero, suc, ◌+◌, ◌-◌, ◌%◌, ◌<◌, ◌≡◌, refl, sym, ap, ◌∙◌, subst, true, false, ◌⊎◌, inl, inr, ◌↔◌,
  Bool-cases, ℕ_discrete, arith,
}
use native.Mathlib.Decide.{dec_le}
use native.Mathlib.Nat.{mod-lt, mod-eq_of_lt, mod-add-mod, add-mod_right}
use rosy.Base.Dict.{Dict, contains}
use rosy.Base.Exec.{ok, err, service_request_error}
use rosy.Service.Caller.{Caller, pending_of, find_from, get_new_request_id}

module _ (max : ℕ) (used : Dict ℕ ℕ) where
  abbrev InUse : ℕ → Type 0
  InUse id = contains ℕ_discrete id used ≡ true

  -- The loop stops at the first free id, or has seen an id in use in every round.
  find_from_cases :
      (rounds next : ℕ)
      → next < max
      → ((id : ℕ) × (find_from max used rounds next ≡ (ok id, id))
          × (id < max)
          × (contains ℕ_discrete id used ≡ false))
        ⊎ ((n : ℕ) × (find_from max used rounds next ≡ (err service_request_error, n))
            × (n < max)
            × ((i : ℕ) → i < rounds → InUse ((next + i) % max)))
  unfolding find_from
  find_from_cases zero next h = inr (next, refl, h, λ i p. absurd (omega arith))
  find_from_cases (suc rounds) next h = elim (Bool-cases (contains ℕ_discrete next used)) [
    | inr free ↦ inl (next, rw free refl, h, free)
    | inl busy ↦
        elim (find_from_cases rounds ((next + 1) % max) (mod-lt (next + 1) (omega arith))) [
          | inl (id, e, small, free) ↦ inl (id, rw busy e, small, free)
          | inr (n, e, small, all) ↦ inr (n, rw busy e, small, shift busy all)
        ]
  ]
    where
      shift :
          InUse next
          → ((i : ℕ) → i < rounds → InUse (((next + 1) % max + i) % max))
          → (i : ℕ) → i < suc rounds
          → InUse ((next + i) % max)
      shift busy all zero p =
          subst InUse (sym (mod-eq_of_lt {n = next + 0} {m = max} (omega arith) ∙ omega arith)) busy
      shift busy all (suc i) p =
          subst InUse (mod-add-mod (next + 1) max i ∙ ap (λ n. n % max) (omega arith))
            (all i (omega arith))

  -- `max` rounds from `next` pass every id below `max`.
  all_seen :
      (next : ℕ)
      → next < max
      → ((i : ℕ) → i < max → InUse ((next + i) % max))
      → (j : ℕ) → j < max
      → InUse j
  all_seen next h all j p = elim (dec_le next j) [
    | yes q ↦
        let e : (next + (j - next)) % max ≡ j = mod-eq_of_lt (omega arith) ∙ omega arith in
        subst InUse e (all (j - next) (omega arith))
    | no q ↦
        let i = j + max - next in
        let e : (next + i) % max ≡ j =
          ap (λ n. n % max) (omega arith) ∙ add-mod_right j max ∙ mod-eq_of_lt p in
        subst InUse e (all i (omega arith))
  ]

module _ {Data : Type 0} (reader : ℕ) (c : Caller Data)
    (valid : c.next_request_id < c.max_request_ids) where
  abbrev pub IdInUse : ℕ → Type 0
  IdInUse id = contains ℕ_discrete id (pending_of reader c) ≡ true

  abbrev Found : Type 0
  Found =
      (id : ℕ) × (get_new_request_id reader c
        ≡ (ok id, record c { next_request_id = (id + 1) % c.max_request_ids }))
      × (id < c.max_request_ids)
      × (contains ℕ_discrete id (pending_of reader c) ≡ false)

  abbrev Exhausted : Type 0
  Exhausted =
      (n : ℕ) × (n < c.max_request_ids)
      × (get_new_request_id reader c
          ≡ (err service_request_error, record c { next_request_id = n }))
      × ((id : ℕ) → id < c.max_request_ids → IdInUse id)

  -- Either a free id below the limit is returned, and the search goes on behind it next time, or
  -- the call raises and every id is in use.
  pub get_new_request_id_cases : Found ⊎ Exhausted
  unfolding get_new_request_id
  get_new_request_id_cases =
      elim (find_from_cases c.max_request_ids (pending_of reader c) c.max_request_ids
        c.next_request_id valid) [
          | inl (id, e, small, free) ↦ inl (id, rw e refl, small, free)
          | inr (n, e, small, all) ↦ inr (
            n,
            small,
            rw e refl,
            all_seen c.max_request_ids (pending_of reader c) c.next_request_id valid all,
          )
        ]

  -- Where the next id to try is below the limit, the call raises exactly when every id below the
  -- limit is in use on the reader.
  pub get_new_request_id-eq-err_iff :
      ((get_new_request_id reader c).0 ≡ err service_request_error)
      ↔ ((id : ℕ) → id < c.max_request_ids → IdInUse id)
  get_new_request_id-eq-err_iff = elim get_new_request_id_cases [
    | inl (id, e, small, free) ↦
        (λ bad. absurd (cc (e, bad)), λ all. absurd (cc (free, all id small)))
    | inr (n, small, e, all) ↦ (λ _. all, λ _. ap (λ r. r.0) e)
  ]
