-- ===== src/Bigtable/SampleKeys.antt =====
-- pkg/bigtable/samplekeys.go: SampleRowKeys, from the tables that `DB.SSTables` lists by level.
pub mod Offsets
use Prim.Native.String.{String}
use cloudpebble.Base.{ℕ, ◌+◌, ◌-◌, ◌^◌, Option, none, some, List, [], ◌∷◌, ◌++◌, ltb, if◌then◌else◌}
use cloudpebble.Base.Order.{Bytes}
use cloudpebble.Bigtable.Encoding.Decoder.{CellKey, CellDecoder, decode}
use cloudpebble.Bigtable.Status.{Status, errorf, internal}

-- a table: the user key of `Smallest`, and the uint64 `Size`
pub record SsTable : Type 0 where
  pub smallest : Bytes
  pub size : ℕ

-- a `SampleRowKeysResponse`
pub record Sample : Type 0 where
  pub row_key : Bytes
  pub offset_bytes : ℕ

-- `dec`, `offsetBytes` and what was sent, the first first
pub record Sampling : Type 0 where
  pub decoder : CellDecoder
  pub offset : ℕ
  pub sent : List Sample

-- the error of the database or its levels of tables
pub data Tables : Type 0 where
  unlisted : String → Tables
  levels : List (List SsTable) → Tables

-- `math.MaxInt64`
abbrev pub max_int64 : ℕ
max_int64 = 2 ^ 63 - 1

-- the saturating addition of a size, of an int64 that is not negative
unfoldable pub add_size : ℕ → ℕ → ℕ
add_size offset size = if ltb (max_int64 - offset) size then max_int64 else offset + size

-- `send` is the error of `Send`, if there is one.
module _ (send : Sample → Option Status) where
  -- the body of the loop over the tables of a level
  unfoldable pub sample_table : SsTable → Sampling → Sampling × Option Status
  unfolding add_size decode
  sample_table t s = elim t.smallest [
    | [] ↦ (record s { offset = add_size s.offset t.size }, none)
    | c ∷ cs ↦
        let (d, key) = decode s.decoder (c ∷ cs) in
        elim key [
          | none ↦ (record s { decoder = d }, none)
          | some k ↦ elim k.row_key [
            | [] ↦ (record s { decoder = d }, none)
            | r ∷ rs ↦
                let sample : Sample = record { row_key = r ∷ rs; offset_bytes = s.offset } in
                elim (send sample) [
                  | some status ↦ (record s { decoder = d }, some status)
                  | none ↦ (
                    record {
                      decoder = d;
                      offset = add_size s.offset t.size;
                      sent = s.sent ++ sample ∷ [];
                    },
                    none,
                  )
                ]
          ]
        ]
  ]

  unfoldable pub sample_level : List SsTable → Sampling → Sampling × Option Status
  unfolding sample_table
  sample_level [] s = (s, none)
  sample_level (t ∷ ts) s =
      let (s', error) = sample_table t s in
      elim error [ some status ↦ (s', some status) | none ↦ sample_level ts s' ]

  unfoldable pub sample_levels : List (List SsTable) → Sampling → Sampling × Option Status
  unfolding sample_level
  sample_levels [] s = (s, none)
  sample_levels (ts ∷ tss) s =
      let (s', error) = sample_level ts s in
      elim error [ some status ↦ (s', some status) | none ↦ sample_levels tss s' ]

  -- `SampleRowKeys`, on an engine that opens: what is sent, and the error
  unfoldable pub sample_row_keys : Tables → List Sample × Option Status
  unfolding sample_levels
  sample_row_keys (unlisted cause) = ([], some (errorf internal "reading SSTs: %v" cause))
  sample_row_keys (levels tss) =
      let start : CellDecoder = record { row_key_buf = []; qualifier_buf = [] } in
      let (s, error) = sample_levels tss (record { decoder = start; offset = 0; sent = [] }) in
      (s.sent, error)
