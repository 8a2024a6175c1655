-- ===== src/Message/Decode/Trip/Whole.antt =====
-- `pb_encode` and `pb_decode_noinit` over a whole table, from what they do to its entries.
use ios_college_work.Common.{
  ℕ, zero, suc, ◌+◌, ◌≤◌, ◌<◌, ◌≡◌, ◌≢◌, refl, sym, ap, ◌∙◌, ◌⊎◌, Bool, true, Option, List, [], ◌∷◌,
  ◌++◌, length, arith, Cmd, ok, ◌>>=◌, ne→==,
}
use mathlib.Core.Path.{subst}
use ios_college_work.Stream.Errors.{Error}
use ios_college_work.Stream.Buffers.{input}
use ios_college_work.Stream.Output.{OStream}
use ios_college_work.Stream.Writes.{Writes, Writes-then, Writes-nothing}
use ios_college_work.Message.Memory.{Mem}
use ios_college_work.Message.Field.{Field, field_at}
use ios_college_work.Message.Iter.{FieldIter, pb_field_iter_begin}
use ios_college_work.Message.Iter.Walk.{field_at-All}
use ios_college_work.Message.Encode.Messages.{each_field, encode_from}
use ios_college_work.Message.Decode.Machine.{Machine, machine}
use ios_college_work.Message.Decode.Env.{DecodeEnv}
use ios_college_work.Message.Decode.Messages.{check_count, check_required, pb_decode_noinit}
use ios_college_work.Message.Decode.Required.{has, indices, mark_each, check_count-mark_each}
use ios_college_work.Message.Decode.Required.Bits.{every}
use ios_college_work.Message.Decode.Trip.Walk.{walk}
use ios_college_work.Message.Decode.Trip.Count.{
  seen_at, required_before, walk-step, walk-around, check_required-walk,
}
use ios_college_work.Message.Decode.Trip.Rounds.{IsSimple, Seen, Seen-begin}
use ios_college_work.Message.Decode.Trip.Feed.{Chunk, IsApart, Fed, Fed-end, Fed-Chunk}
use ios_college_work.Message.Decode.Trip.Loop.{fuel-suc}

-- What the entries from `k` on leave, of which there are `r`.
abbrev pub chunks : (chunk : ℕ → List ℕ) → (r k : ℕ) → List ℕ
chunks chunk zero k = []
chunks chunk (suc r) k = chunk k ++ chunks chunk r (suc k)

-- With something in front of each of them, and behind the last one.
abbrev pub padded : (gap chunk : ℕ → List ℕ) → (r k : ℕ) → List ℕ
padded gap chunk zero k = gap k ++ []
padded gap chunk (suc r) k = gap k ++ (chunk k ++ padded gap chunk r (suc k))

pub padded-nothing : (chunk : ℕ → List ℕ) (r k : ℕ) → padded (λ _. []) chunk r k ≡ chunks chunk r k
padded-nothing chunk zero k = refl
padded-nothing chunk (suc r) k =
    ap (λ (bs : List ℕ). chunk k ++ bs) (padded-nothing chunk r (suc k))

every-true : (n : ℕ) (f : ℕ → Bool) → ((j : ℕ) → j < n → f j ≡ true) → every n f ≡ true
every-true zero f h = refl
every-true (suc n) f h =
    rw (h 0 (omega arith), every-true n (λ j. f (suc j)) (λ j lt. h (suc j) (omega (arith, lt))))
      refl

module _ (fields : List Field) (simple : IsSimple fields) (chunk : ℕ → List ℕ) where
  -- The encoder goes through the table in its order.
  module _ (src : ℕ) (encode : FieldIter → Cmd OStream (Unit {0}))
      (each : (k : ℕ) → k < length fields → Writes (encode (walk fields src k)) (chunk k)) where
    each_field-Writes :
        (fuel r k : ℕ)
        → k + suc r ≡ length fields
        → r < fuel
        → Writes (each_field fuel encode (walk fields src k)) (chunks chunk (suc r) k)
    unfolding each_field
    each_field-Writes zero r k e enough = absurd (omega (arith, enough))
    each_field-Writes (suc fuel) zero k e enough =
        let around =
          ap (λ (t : FieldIter × Bool). t.1)
            (walk-around fields src simple.closed simple.no_oneof k (omega (arith, e))) in
        Writes-then (each k (omega (arith, e))) (rw around Writes-nothing)
    each_field-Writes (suc fuel) (suc r) k e enough =
        let step =
          ap (λ (t : FieldIter × Bool). t.1)
            (walk-step fields src simple.closed simple.no_oneof k (omega (arith, e))) in
        let rest = each_field-Writes fuel r (suc k) (omega (arith, e)) (omega (arith, enough)) in
        Writes-then (each k (omega (arith, e))) (rw step rest)

    pub encode_from-Writes :
        0 < length fields
        → Writes
            (encode_from encode (pb_field_iter_begin fields src))
            (chunks chunk (length fields) 0)
    unfolding encode_from pb_field_iter_begin
    encode_from-Writes some_left =
        let (r, up) = fuel-suc (length fields) some_left in
        let tagged =
          ne→== (field_at fields 0).tag 0
            (field_at-All (λ field. field.tag ≢ 0) fields 0 simple.closed some_left) in
        rw tagged (
          subst
            (λ (n : ℕ).
              Writes (each_field (suc (length fields)) encode (walk fields src 0))
                (chunks chunk n 0))
            (sym up)
            (each_field-Writes (suc (length fields)) r 0 (omega (arith, up)) (omega (arith, up))))

  -- The decoder takes it all.
  module _ (dest depth : ℕ) (env : DecodeEnv) (lo hi : ℕ → ℕ) (Ready Same : ℕ → Mem → Type 0)
      (is : IsApart fields dest simple depth env (pb_decode_noinit depth env) lo hi Ready Same)
      (each : (k : ℕ)
        → k < length fields
        → Chunk fields dest simple depth env
            (pb_decode_noinit depth env)
            lo
            hi
            Ready
            Same
            k
            (chunk k)) where
    abbrev FedHere : (k : ℕ) → List ℕ → FieldIter → List ℕ → (range : ℕ) → Type 0
    FedHere k bs iter ws range =
        Fed fields dest simple depth env (pb_decode_noinit depth env) lo hi Ready Same k bs iter ws
          range

    -- What stands in front of the entry at `k` leaves its fields as they are.
    abbrev pub Skips : (gap : ℕ → List ℕ) → Type 0
    Skips gap =
        (k : ℕ) (bs : List ℕ) (iter : FieldIter) (ws : List ℕ) (range : ℕ)
        → Seen fields dest k iter ws
        → ((next : FieldIter) (range' : ℕ)
            → Seen fields dest k next ws
            → FedHere k bs next ws range')
        → FedHere k (gap k ++ bs) iter ws range

    module _ (gap : ℕ → List ℕ) (skips : Skips gap) where
      Fed-from :
          (r k : ℕ)
          → k + r ≡ length fields
          → (iter : FieldIter) (ws : List ℕ) (range : ℕ) → Seen fields dest k iter ws
          → FedHere k (padded gap chunk r k) iter ws range
      Fed-from zero k e iter ws range seen = skips k [] iter ws range seen λ next range' seen'.
          let end : length fields ≡ k = omega (arith, e) in
          subst (λ (i : ℕ). FedHere i [] next ws range') end
            (Fed-end fields dest simple depth env (pb_decode_noinit depth env) lo hi Ready Same next
              ws range' (subst (λ (i : ℕ). Seen fields dest i next ws) (sym end) seen'))
      Fed-from (suc r) k e iter ws range seen =
          skips k (chunk k ++ padded gap chunk r (suc k)) iter ws range seen λ next range' seen'.
            let lt : k < length fields = omega (arith, e) in
            Fed-Chunk fields dest simple depth env (pb_decode_noinit depth env) lo hi Ready Same is
              k lt (each k lt) seen'
              (λ next' vs. Fed-from r (suc k) (omega (arith, e)) next' vs range')

    passed :
        (iter : FieldIter) (ws : List ℕ) (range : ℕ)
        → Seen fields dest (length fields) iter ws
        → (s : Machine) → check_required (seen_at iter ws range) s ≡ ok tt s
    passed iter ws range seen s =
        let (last, up) = fuel-suc (length fields) (omega (arith, seen.within)) in
        let total = required_before fields (length fields) in
        let all = every-true total (λ j. has j (indices seen.visited)) (λ j h. seen.covered j h) in
        let check : (mark_each seen.visited >>= check_count total) s ≡ ok tt s =
          check_count-mark_each total seen.visited s simple.few simple.other seen.all
          ∙ rw all refl in
        let counted : check_count total ws s ≡ ok tt s = rw (seen.marks s) at check in
        ap (λ (i : FieldIter). check_required (seen_at i ws range) s) seen.on_walk.same
        ∙ check_required-walk fields dest simple.closed simple.no_oneof last (sym up) simple.few
            iter.pos ws range (omega (arith, up, seen.within)) s
        ∙ counted

    -- The whole message.
    pub pb_decode_noinit-padded :
        (gap : ℕ → List ℕ)
        → Skips gap
        → 0 < length fields
        → (m : Mem) → ((i : ℕ) → i < length fields → Ready i m)
        → (rest : List ℕ) (e : Option Error)
        → (after : Mem) × (pb_decode_noinit (suc depth) env fields dest (
              machine
                (input
                  (padded gap chunk (length fields) 0 ++ rest)
                  (length (padded gap chunk (length fields) 0))
                  e)
                m)
            ≡ ok tt (machine (input rest 0 e) after))
          × ((q : ℕ) → ((i : ℕ) → i < length fields → (q < lo i) ⊎ (hi i ≤ q)) → after q ≡ m q)
          × ((i : ℕ) → i < length fields → Same i after)
    unfolding pb_decode_noinit
    pb_decode_noinit-padded gap skips some_left m ready rest e =
        let fed =
          Fed-from gap skips (length fields) 0 (omega arith) (walk fields dest 0) (0 ∷ 0 ∷ []) 0
            (Seen-begin fields dest simple some_left) in
        let (after, run, kept, same) =
          fed.runs m (λ i _. ready i) (suc (length (padded gap chunk (length fields) 0))) rest e
            (omega arith) in
        (
          after,
          rw run (passed fed.at fed.bitmap fed.range_at fed.seen (machine (input rest 0 e) after)),
          (λ q out. kept q (λ i _. out i)),
          λ i. same i (omega arith),
        )

    -- With nothing in between.
    pub nothing-Skips : Skips (λ _. [])
    nothing-Skips k bs iter ws range seen next = next iter range seen
