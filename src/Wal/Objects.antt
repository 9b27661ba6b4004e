-- ===== src/Wal/Objects.antt =====
-- pkg/walcloud/manager.go: the log objects in a store: listing, reading, collecting, and the first
-- sequence number of a new manager. `sort.Slice` is an insertion sort; the order that it gives to
-- entries of one sequence number is not documented, and nothing here depends on it.
pub mod Listed
pub mod Collected
use Prim.Native.String.{String}
use cloudpebble.Base.{
  ℕ, suc, ◌+◌, ◌-◌, ◌%◌, ◌^◌, Bool, true, false, not, ◌&&◌, Option, none, some, List, [], ◌∷◌, ltb,
  leb, if◌then◌else◌,
}
use cloudpebble.Base.Order.{Bytes}
use cloudpebble.Objstore.{Store, Fetched, found, missing, failed}
use cloudpebble.Wal.Paths.{wal_path, wal_prefix, parse_wal_seq}

pub record WalEntry : Type 0 where
  pub seq : ℕ
  pub path : Bytes

-- the loop of `listWALs`
unfoldable pub wal_entries : List Bytes → List WalEntry
wal_entries [] = []
wal_entries (p ∷ ps) = elim (parse_wal_seq p) [
  | none ↦ wal_entries ps
  | some n ↦ record { seq = n; path = p } ∷ wal_entries ps
]

unfoldable pub insert_entry : WalEntry → List WalEntry → List WalEntry
insert_entry e [] = e ∷ []
insert_entry e (f ∷ es) =
    let rest = insert_entry e es in if ltb f.seq e.seq then f ∷ rest else e ∷ f ∷ es

unfoldable pub sort_entries : List WalEntry → List WalEntry
unfolding insert_entry
sort_entries [] = []
sort_entries (e ∷ es) = insert_entry e (sort_entries es)

-- `entries[len(entries)-1]`, of a list that may be empty
unfoldable pub last_entry : List WalEntry → Option WalEntry
last_entry [] = none
last_entry (e ∷ []) = some e
last_entry (e ∷ f ∷ es) = last_entry (f ∷ es)

-- the uint64 `last.Seq + 1`, or 1
unfoldable pub first_seq : List WalEntry → ℕ
unfolding last_entry
first_seq es = elim (last_entry es) [ none ↦ 1 | some e ↦ (e.seq + 1) % 2 ^ 64 ]

-- what `GC` returns, with the store
pub record Collection (O : Type 0) : Type 0 where
  pub objects : O
  pub deleted : ℕ
  pub error : Option String

-- the error of `ReadRecord`: the store's, not found included
pub data Read : Type 0 where
  data_of : Bytes → Read
  unread : Option String → Read

-- whether an object is older than a positive time limit
unfoldable pub is_expired : (store : Store) → store.Objects → Bytes → ℕ → ℕ → Bool
is_expired store o p ttl now = ltb 0 ttl && ltb ttl (now - store.created o p)

module _ (store : Store) (ns : Bytes) where
  -- `listWALs`, `List`
  unfoldable pub list_wals : store.Objects → Option (List WalEntry)
  unfolding wal_entries sort_entries
  list_wals o = elim (store.list o (wal_prefix ns)) [
    | none ↦ none
    | some ps ↦ some (sort_entries (wal_entries ps))
  ]

  -- `NewManager`: the first sequence number
  unfoldable pub new_manager : store.Objects → Option ℕ
  unfolding first_seq
  new_manager o = elim (list_wals o) [ none ↦ none | some es ↦ some (first_seq es) ]

  -- `ReadRecord`
  unfoldable pub read_record : store.Objects → ℕ → Read
  read_record o seq = elim (store.get o (wal_path ns seq)) [
    | found d ↦ data_of d
    | missing ↦ unread none
    | failed e ↦ unread (some e)
  ]

  -- whether `GC` deletes an entry: it is not above `max_seq`, or it is older than `orphan_ttl`, which
  -- is 0 when it is not positive
  unfoldable pub is_garbage : store.Objects → ℕ → ℕ → ℕ → WalEntry → Bool
  is_garbage o max_seq orphan_ttl now e =
      if leb e.seq max_seq
      then true
      else if leb orphan_ttl 0
      then false
      else elim (store.created_at o e.path) [
        | none ↦ false
        | some created ↦ ltb orphan_ttl (now - created)
      ]

  -- the loop of `GC`, from the number of objects deleted so far
  unfoldable pub gc_loop : store.Objects → ℕ → ℕ → ℕ → List WalEntry → ℕ → Collection store.Objects
  unfolding is_garbage
  gc_loop o max_seq orphan_ttl now [] deleted = record {
    objects = o;
    deleted = deleted;
    error = none;
  }
  gc_loop o max_seq orphan_ttl now (e ∷ es) deleted =
      let (o', failure) = store.delete o e.path in
      let kept = gc_loop o max_seq orphan_ttl now es deleted in
      let rest = gc_loop o' max_seq orphan_ttl now es (suc deleted) in
      if is_garbage o max_seq orphan_ttl now e
      then elim failure [
        | some cause ↦ record { objects = o'; deleted = deleted; error = some cause }
        | none ↦ rest
      ]
      else kept

  -- `GC`
  unfoldable pub gc : store.Objects → ℕ → ℕ → ℕ → Collection store.Objects
  unfolding gc_loop
  gc o max_seq orphan_ttl now = elim (list_wals o) [
    | none ↦ record { objects = o; deleted = 0; error = some "listing" }
    | some es ↦ gc_loop o max_seq orphan_ttl now es 0
  ]
