-- ===== src/Service/Caller/Valid.antt =====
-- The well-formedness of the caller's tables, which every step keeps.
use rosy.Base.{
  ℕ, ◌<◌, ◌≡◌, refl, subst, Bool, true, false, ◌&&◌, Option, none, some, inl, inr, Bool-cases,
  Option-cases, ℕ_discrete, arith, if◌then◌else◌, holds, [],
}
use rosy.Base.Dict.{Dict, get, set, without, contains, keys, Distinct}
use rosy.Base.Dict.Laws.{get-set, get-without, Distinct-set, Distinct-without}
use rosy.Base.Exec.{Error}
use rosy.Message.{ServiceResponse}
use rosy.Service.Caller.{
  Caller, pending_of, start_response_handler, add_future, exit_request, handle_one_response,
  find_future, id_of, close_reader,
}

-- The key in question: request `id` of `reader`.
abbrev pub is_key : ℕ → ℕ → ℕ → ℕ → Bool
is_key reader id r i = holds (ℕ_discrete r reader) && holds (ℕ_discrete i id)

pub if-Distinct :
    (b : Bool) (x y : Dict ℕ ℕ)
    → Distinct (keys x)
    → Distinct (keys y)
    → Distinct (keys (if b then x else y))
if-Distinct true x y hx hy = hx
if-Distinct false x y hx hy = hy

abbrev no_futures : Dict ℕ ℕ
no_futures = []

module _ {Data : Type 0} where
  -- The future registered for a request id on a reader.
  abbrev pub registered : Caller Data → ℕ → ℕ → Option ℕ
  registered c reader id = get ℕ_discrete id (pending_of reader c)

  pub record IsValid (c : Caller Data) : Type 0 where
    pub next_below : c.next_request_id < c.max_request_ids
    pub readers_distinct : Distinct (keys c.response_futures)
    pub ids_distinct : (reader : ℕ) → Distinct (keys (pending_of reader c))
    pub ids_below : (reader id k : ℕ) → registered c reader id ≡ some k → id < c.max_request_ids
    pub futures_below : (reader id k : ℕ) → registered c reader id ≡ some k → k < c.fresh
    pub futures_distinct :
        (r i r' i' k : ℕ)
        → registered c r i ≡ some k
        → registered c r' i' ≡ some k
        → (r ≡ r') × (i ≡ i')

  abbrev with_table : Caller Data → Dict ℕ (Dict ℕ ℕ) → Caller Data
  with_table c t = record c { response_futures = t }

  pub pending_of-set :
      (c : Caller Data) (r reader : ℕ) (d : Dict ℕ ℕ)
      → pending_of r (with_table c (set ℕ_discrete reader d c.response_futures))
        ≡ (if holds (ℕ_discrete r reader) then d else pending_of r c)
  pending_of-set c r reader d = ground (arith, get-set ℕ_discrete r reader d c.response_futures)

  pub pending_of-without :
      (c : Caller Data) (r reader : ℕ)
      → Distinct (keys c.response_futures)
      → pending_of r (with_table c (without ℕ_discrete reader c.response_futures))
        ≡ (if holds (ℕ_discrete r reader) then [] else pending_of r c)
  pending_of-without c r reader u =
      ground (arith, get-without ℕ_discrete r reader c.response_futures u)

  -- Starting the response handler changes no registration.
  pub pending_of-start :
      (c : Caller Data) (r reader : ℕ)
      → pending_of r (start_response_handler reader c) ≡ pending_of r c
  unfolding start_response_handler
  pending_of-start c r reader =
      ground (arith, get-set ℕ_discrete r reader no_futures c.response_futures)

  pending_of-exit :
      (c : Caller Data) (r reader id : ℕ)
      → pending_of r (exit_request reader id c) ≡ (
          if holds (ℕ_discrete r reader)
          then without ℕ_discrete id (pending_of reader c)
          else pending_of r c)
  unfolding exit_request
  pending_of-exit c r reader id = elim (Option-cases (get ℕ_discrete reader c.response_futures)) [
    | inl e ↦ ground (arith, e)
    | inr (d, e) ↦ ground (arith, e, pending_of-set c r reader (without ℕ_discrete id d))
  ]

  -- A finished call takes its registration away, and no other.
  pub registered-exit :
      (c : Caller Data) (reader id r i : ℕ)
      → IsValid c
      → registered (exit_request reader id c) r i
        ≡ (if is_key reader id r i then none else registered c r i)
  registered-exit c reader id r i v =
      rw (pending_of-exit c r reader id)
        (ground (arith, get-without ℕ_discrete i id (pending_of reader c) (v.ids_distinct reader)))

  -- A new call adds its registration, and changes no other.
  pub registered-add :
      (c : Caller Data) (reader id r i : ℕ)
      → registered (add_future reader id c).1 r i
        ≡ (if is_key reader id r i then some c.fresh else registered c r i)
  unfolding add_future
  registered-add c reader id r i =
      let d = set ℕ_discrete id c.fresh (pending_of reader c) in
      rw (pending_of-set c r reader d)
        (ground (arith, get-set ℕ_discrete i id c.fresh (pending_of reader c)))

  -- A closed reader has no registration left.
  pub registered-close :
      (c : Caller Data) (error : Error) (reader r i : ℕ)
      → IsValid c
      → registered (close_reader error reader c) r i
        ≡ (if holds (ℕ_discrete r reader) then none else registered c r i)
  unfolding close_reader
  registered-close c error reader r i v =
      rw (pending_of-without c r reader v.readers_distinct) (ground arith)

  -- Where every registration is an old one, the tables stay well-formed.
  IsValid-sub :
      (c c' : Caller Data)
      → IsValid c
      → c'.next_request_id < c'.max_request_ids
      → c'.max_request_ids ≡ c.max_request_ids
      → c'.fresh ≡ c.fresh
      → Distinct (keys c'.response_futures)
      → ((r : ℕ) → Distinct (keys (pending_of r c')))
      → ((r i k : ℕ) → registered c' r i ≡ some k → registered c r i ≡ some k)
      → IsValid c'
  IsValid-sub c c' v next em ef rd pd sub = record {
    next_below = next;
    readers_distinct = rd;
    ids_distinct = pd;
    ids_below = λ r i k h. omega (arith, v.ids_below r i k (sub r i k h));
    futures_below = λ r i k h. omega (arith, v.futures_below r i k (sub r i k h));
    futures_distinct =
        λ r i r' i' k h h'. v.futures_distinct r i r' i' k (sub r i k h) (sub r' i' k h');
  }

  -- A new table for one reader, with no registration that is not an old one.
  table-IsValid :
      (c : Caller Data) (reader : ℕ) (d : Dict ℕ ℕ)
      → IsValid c
      → Distinct (keys d)
      → ((i k : ℕ) → get ℕ_discrete i d ≡ some k → registered c reader i ≡ some k)
      → IsValid (with_table c (set ℕ_discrete reader d c.response_futures))
  table-IsValid c reader d v u sub =
      IsValid-sub c (with_table c (set ℕ_discrete reader d c.response_futures)) v v.next_below refl
        refl (Distinct-set ℕ_discrete reader d c.response_futures v.readers_distinct)
        (λ r.
          rw (pending_of-set c r reader d)
            (if-Distinct (holds (ℕ_discrete r reader)) d (pending_of r c) u (v.ids_distinct r)))
        (λ r i k h. old r i k (rw (pending_of-set c r reader d) at h))
    where
      old :
          (r i k : ℕ)
          → get ℕ_discrete i (if holds (ℕ_discrete r reader) then d else pending_of r c) ≡ some k
          → registered c r i ≡ some k
      old r i k h =
          elim (ℕ_discrete r reader)
              as (λ b.
                get ℕ_discrete i (if holds b then d else pending_of r c) ≡ some k
                → registered c r i ≡ some k) [ yes p ↦ λ g. rw p (sub i k g) | no p ↦ λ g. g ]
            h

  pub start-IsValid :
      (c : Caller Data) (reader : ℕ) → IsValid c → IsValid (start_response_handler reader c)
  unfolding start_response_handler
  start-IsValid c reader v = elim (Bool-cases (contains ℕ_discrete reader c.response_futures)) [
    | inl e ↦ rw e v
    | inr e ↦ rw e (table-IsValid c reader [] v tt (λ i k h. absurd (cc h)))
  ]

  pub exit-IsValid :
      (c : Caller Data) (reader id : ℕ) → IsValid c → IsValid (exit_request reader id c)
  unfolding exit_request
  exit-IsValid c reader id v = elim (Option-cases (get ℕ_discrete reader c.response_futures)) [
    | inl e ↦ rw (e, exit_request) v
    | inr (d, e) ↦
        let u : Distinct (keys d) =
          subst (λ (x : Dict ℕ ℕ). Distinct (keys x)) (ground (arith, e)) (v.ids_distinct reader) in
        rw (e, exit_request)
          (table-IsValid c reader (without ℕ_discrete id d) v (Distinct-without ℕ_discrete id d u)
            (λ i k h. ground (arith, e, h, get-without ℕ_discrete i id d u)))
  ]

  pub close-IsValid :
      (c : Caller Data) (error : Error) (reader : ℕ)
      → IsValid c
      → IsValid (close_reader error reader c)
  unfolding close_reader
  close-IsValid c error reader v =
      IsValid-sub c (close_reader error reader c) v v.next_below refl refl
        (Distinct-without ℕ_discrete reader c.response_futures v.readers_distinct)
        (λ r.
          rw (pending_of-without c r reader v.readers_distinct)
            (if-Distinct (holds (ℕ_discrete r reader)) [] (pending_of r c) tt (v.ids_distinct r)))
        (λ r i k h. ground (arith, h, registered-close c error reader r i v))

  pub response-IsValid :
      (c : Caller Data) (reader : ℕ) (response : ServiceResponse Data)
      → IsValid c
      → IsValid (handle_one_response reader response c)
  unfolding handle_one_response
  response-IsValid c reader response v =
      elim (Option-cases (find_future (id_of response.id) (pending_of reader c))) [
        | inl e ↦ rw (e, handle_one_response) v
        | inr (k, e) ↦
            rw (e, handle_one_response)
              (IsValid-sub c _ v v.next_below refl refl v.readers_distinct v.ids_distinct
                (λ r i j h. h))
      ]
