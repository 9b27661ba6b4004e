-- ===== src/Wal/Manager/Durable.antt =====
-- pkg/walcloud/manager.go: what the answers of a manager promise of the store.
use cloudpebble.Base.{
  ℕ, ◌+◌, ◌^◌, ◌≤◌, ◌<◌, Bool, true, false, none, some, List, [], leb, ◌||◌, ◌∷◌, ◌++◌, ◌≡◌, ◌≢◌,
  refl, sym, subst, ◌∙◌, arith, ◌==◌, Bool-cases, inl, inr, ==_iff, ==_refl, ◌⊎◌, All,
}
use cloudpebble.Base.Order.{Bytes, equal_bytes}
use cloudpebble.Objstore.{Store}
use cloudpebble.Wal.Batches.{merge_batch_segments}
use cloudpebble.Wal.Paths.{wal_path, parse_wal_seq-wal_path}
use cloudpebble.Wal.Objects.Collected.{paths_apart, gc-keeps}
use cloudpebble.Wal.Objects.{is_expired}
use cloudpebble.Wal.Manager.{
  Flight, Outcome, close, System, launch, land, collect, Step, writes, fires, flushes, closes,
  lands, collects, Reachable, here, there, initial,
}
use cloudpebble.Wal.Manager.Numbers.{
  in_flights, in_done, uses, IsNumbered, Step-IsNumbered, initial-IsNumbered, in_flights-middle,
}

true_left : (a b : Bool) → a ≡ true → (a || b) ≡ true
true_left a b h = ground (arith, h)

true_right : (a b : Bool) → b ≡ true → (a || b) ≡ true
true_right a b h = ground (arith, h)

module _ (store : Store) (ns : Bytes) where
  -- the log object of a number has this content, if no collection was told to delete up to the number
  -- or found the object older than its time limit
  abbrev pub IsStored : ℕ → Bytes → System store.Objects → Type 0
  IsStored seq d s =
      (seq ≤ s.collected)
      ⊎ ((s.expired seq ≡ true) ⊎ (store.content s.objects (wal_path ns seq) ≡ some d))

  -- an outcome without an error has stored its segments
  abbrev pub IsDurable : System store.Objects → Outcome → Type 0
  IsDurable s d = d.error ≡ none → IsStored d.flight.seq (merge_batch_segments d.flight.segments) s

  abbrev pub AllDurable : System store.Objects → Type 0
  AllDurable s = All (IsDurable s) s.done

  wal_paths_apart :
      (m n : ℕ)
      → m < 2 ^ 64
      → n < 2 ^ 64
      → m ≢ n
      → equal_bytes (wal_path ns m) (wal_path ns n) ≡ false
  wal_paths_apart m n hm hn ne =
      paths_apart (wal_path ns m) (wal_path ns n) m n (parse_wal_seq-wal_path ns m hm)
        (parse_wal_seq-wal_path ns n hn) ne

  -- The end of a `Put` leaves the objects of other numbers.
  land-IsStored :
      (fs : List Flight) (f : Flight) (gs : List Flight) (s : System store.Objects) (n : ℕ)
      (d : Bytes)
      → f.seq < 2 ^ 64
      → n < 2 ^ 64
      → n ≢ f.seq
      → IsStored n d s
      → IsStored n d (land store ns fs f gs s)
  unfolding land
  land-IsStored fs f gs s n d hf hn ne (inl c) = inl c
  land-IsStored fs f gs s n d hf hn ne (inr (inl c)) = inr (inl c)
  land-IsStored fs f gs s n d hf hn ne (inr (inr c)) =
      let apart = wal_paths_apart n f.seq hn hf ne in
      inr (
        inr (
          store.put-other s.objects (wal_path ns f.seq) (merge_batch_segments f.segments)
            (wal_path ns n) apart
          ∙ c))

  -- A collection leaves the objects above its number that are not older than its time limit.
  collect-IsStored :
      (max_seq ttl now : ℕ) (s : System store.Objects) (n : ℕ) (d : Bytes)
      → n < 2 ^ 64
      → IsStored n d s
      → IsStored n d (collect store ns max_seq ttl now s)
  unfolding collect
  collect-IsStored max_seq ttl now s n d hn (inl c) = inl (omega (arith, c))
  collect-IsStored max_seq ttl now s n d hn (inr (inl c)) =
      inr (inl (true_left (s.expired n) (is_expired store s.objects (wal_path ns n) ttl now) c))
  collect-IsStored max_seq ttl now s n d hn (inr (inr c)) =
      let aged = is_expired store s.objects (wal_path ns n) ttl now in
      elim (Bool-cases (leb n max_seq)) [
        | inl le ↦ inl (ground (arith, le))
        | inr gt ↦ elim (Bool-cases aged) [
          | inl a ↦ inr (inl (true_right (s.expired n) aged a))
          | inr young ↦
              let lt : max_seq < n = ground (arith, gt) in
              inr (inr (gc-keeps store ns s.objects max_seq ttl now n lt young hn ∙ c))
        ]
      ]

  occupied :
      (k : ℕ) (fs : List Flight) (f : Flight) (gs : List Flight)
      → k ≡ f.seq
      → in_flights k (fs ++ f ∷ gs) ≢ 0
  occupied k fs f gs same zero =
      let e : f.seq == k ≡ true = (==_iff f.seq k).1 (sym same) in
      let m = sym (in_flights-middle k fs f gs) ∙ zero in
      let m' : 1 + in_flights k (fs ++ gs) ≡ 0 = rw e at m in omega (arith, m')

  -- The flight that lands has a number below 2^64, which no number without flights is.
  landing :
      (start : ℕ) (fs : List Flight) (f : Flight) (gs : List Flight) (s : System store.Objects)
      (n : ℕ)
      → s.flights ≡ fs ++ f ∷ gs
      → IsNumbered start s
      → in_flights n s.flights ≡ 0
      → (f.seq < 2 ^ 64) × (n ≢ f.seq)
  landing start fs f gs s n e h z =
      let here_once : (k : ℕ) → k ≡ f.seq → in_flights k s.flights ≢ 0 =
        λ k same zero. occupied k fs f gs same (subst (λ l. in_flights k l ≡ 0) e zero) in
      let used = h.3 f.seq (λ k. here_once f.seq refl (omega (arith, k))) in
      (omega (arith, used.1, h.1), λ same. here_once n same z)

  -- a step keeps the stored objects whose numbers it does not use
  pub Step-IsStored :
      (start : ℕ) {s t : System store.Objects} (n : ℕ) (d : Bytes)
      → Step store ns s t
      → IsNumbered start s
      → n < 2 ^ 64
      → in_flights n s.flights ≡ 0
      → IsStored n d s
      → IsStored n d t
  unfolding launch close
  Step-IsStored start n d (writes caller segment s lt) h hn z c = c
  Step-IsStored start n d (fires s) h hn z c = c
  Step-IsStored start n d (flushes s) h hn z c = c
  Step-IsStored start n d (closes s) h hn z c = c
  Step-IsStored start n d (lands fs f gs s e) h hn z c =
      let (lt, ne) = landing start fs f gs s n e h z in land-IsStored fs f gs s n d lt hn ne c
  Step-IsStored start n d (collects max_seq ttl now s) h hn z c =
      collect-IsStored max_seq ttl now s n d hn c

  counted : (d : Outcome) (ds : List Outcome) → in_done d.flight.seq (d ∷ ds) ≢ 0
  unfolding in_done
  counted d ds z = let z' = rw (==_refl d.flight.seq) at z in omega (arith, z')

  -- What the outcomes have stored, a step leaves.
  Step-AllDurable :
      (start : ℕ) {s t : System store.Objects} (ds : List Outcome)
      → Step store ns s t
      → IsNumbered start s
      → ((n : ℕ) → in_done n ds ≢ 0 → (n < 2 ^ 64) × (in_flights n s.flights ≡ 0))
      → All (IsDurable s) ds
      → All (IsDurable t) ds
  unfolding in_done
  Step-AllDurable start [] st h free all = tt
  Step-AllDurable start (d ∷ ds) st h free all =
      let n = d.flight.seq in
      let own = free n (counted d ds) in
      (
        λ ok.
            Step-IsStored start n (merge_batch_segments d.flight.segments) st h own.0 own.1
              (all.0 ok),
        Step-AllDurable start ds st h (λ m nz. free m (λ z. nz (omega (arith, z)))) all.1,
      )

  free_numbers :
      (start : ℕ) (s : System store.Objects)
      → IsNumbered start s
      → (n : ℕ) → in_done n s.done ≢ 0
      → (n < 2 ^ 64) × (in_flights n s.flights ≡ 0)
  free_numbers start s h n nz =
      let (a, b) = h.3 n (λ k. nz (omega (arith, k))) in
      (omega (arith, b, h.1), omega (arith, h.2 n, nz))

  Step-durable :
      (start : ℕ) {s t : System store.Objects}
      → Step store ns s t
      → IsNumbered start s
      → AllDurable s
      → AllDurable t
  unfolding launch close collect land
  Step-durable start (writes caller segment s lt) h all =
      Step-AllDurable start s.done (writes caller segment s lt) h (free_numbers start s h) all
  Step-durable start (fires s) h all =
      Step-AllDurable start s.done (fires s) h (free_numbers start s h) all
  Step-durable start (flushes s) h all =
      Step-AllDurable start s.done (flushes s) h (free_numbers start s h) all
  Step-durable start (closes s) h all = all
  Step-durable start (lands fs f gs s e) h all = (
    λ ok.
        inr (
          inr
            (store.put-stored s.objects (wal_path ns f.seq) (merge_batch_segments f.segments) ok)),
    Step-AllDurable start s.done (lands fs f gs s e) h (free_numbers start s h) all,
  )
  Step-durable start (collects max_seq ttl now s) h all =
      Step-AllDurable start s.done (collects max_seq ttl now s) h (free_numbers start s h) all

  Reachable-durable :
      (start : ℕ) {s t : System store.Objects}
      → Reachable store ns s t
      → IsNumbered start s
      → AllDurable s
      → IsNumbered start t × AllDurable t
  Reachable-durable start here h all = (h, all)
  Reachable-durable start (there r st) h all =
      let (h', all') = Reachable-durable start r h all in
      (Step-IsNumbered store ns start st h', Step-durable start st h' all')

  All-middle :
      {A : Type 0} (P : A → Type 0) (xs : List A) (y : A) (zs : List A) → All P (xs ++ y ∷ zs) → P y
  All-middle P [] y zs h = h.0
  All-middle P (x ∷ xs) y zs h = All-middle P xs y zs h.1

module _ (store : Store) (ns : Bytes) (batching : Bool) (n : ℕ) (o : store.Objects)
    (t : System store.Objects) (run : Reachable store ns (initial batching n o) t)
    (small : n < 2 ^ 64) where
  initially : AllDurable store ns (initial batching n o)
  unfolding initial
  initially = tt

  -- In a run of a new manager whose counter does not wrap around, a sequence number is in use at
  -- most once, by the open window, by a flight or by an outcome.
  pub used_once : (k : ℕ) → uses k t ≤ 1
  used_once k =
      let numbered = initial-IsNumbered batching n o small in
      (Reachable-durable store ns n run numbered initially).0.2 k

  -- In a run of a new manager whose counter does not wrap around, with collections of any time limit
  -- for orphans: what a `Put` without an error has written, the object of its sequence number holds,
  -- the merged segments of the calls that were told of success, unless a collection was told to delete
  -- up to that number, or one found the object older than its time limit.
  pub acknowledged-IsStored :
      (ds : List Outcome) (d : Outcome) (es : List Outcome)
      → t.done ≡ ds ++ d ∷ es
      → d.error ≡ none
      → IsStored store ns d.flight.seq (merge_batch_segments d.flight.segments) t
  acknowledged-IsStored ds d es e ok =
      let numbered = initial-IsNumbered batching n o small in
      let all = (Reachable-durable store ns n run numbered initially).1 in
      All-middle store ns (IsDurable store ns t) ds d es (subst (All (IsDurable store ns t)) e all)
        ok
