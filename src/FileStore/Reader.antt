-- ===== src/FileStore/Reader.antt =====
-- The file store as a store that is read by a cursor.
use roj.Base.{
  ℕ, ◌≡◌, ◌≢◌, ap, ◌∙◌, true, Option, none, some, List, [], length, get_or, Result, ok, err,
}
use roj.Store.Range.{LoadRangeOptions, LoadRangeResult, load_range}
use roj.Store.Contract.{EventReader, IsPage, load_range-IsPage}
use roj.FileStore.{Bytes, Codec, FileLog, LogError}
use roj.FileStore.Contents.{Faithful}
use roj.FileStore.Append.{Holds}
use roj.FileStore.Tail.Slices.{IsAscii}
use roj.FileStore.Range.{read_range}
use roj.FileStore.Refines.{read_range-load_range}

-- A log, and how many events its metadata counts.
pub record CountedLog : Type 0 where
  pub log : FileLog
  pub total_events : ℕ

module _ {E : Type 0} (c : Codec E) where
  -- The log holds the events in ASCII, and the metadata counts them.
  pub record IsCounted (l : CountedLog) (es : List E) : Type 0 where
    pub holds : Holds c l.log es
    pub is_ascii : IsAscii (get_or l.log.bytes [])
    pub counted : l.total_events ≡ length es

  abbrev answered : Result LogError (LoadRangeResult E) → Option (LoadRangeResult E)
  answered (ok r) = some r
  answered (err e) = none

  module _ (law : Faithful c) (ascii : (b : Bytes) → IsAscii b → c.decode b ≡ b) where
    pub file-IsPage :
        (o : LoadRangeOptions) (l : CountedLog) (es : List E)
        → IsCounted l es
        → o.limit ≢ some 0
        → (r : LoadRangeResult E) × (answered (read_range c true l.total_events o l.log) ≡ some r)
          × IsPage o es r
    file-IsPage o l es h k = (
      load_range o es,
      ap (λ n. answered (read_range c true n o l.log)) h.counted
          ∙ ap answered (read_range-load_range c law ascii o l.log es h.holds h.is_ascii k),
      load_range-IsPage o es k,
    )

    abbrev pub file_reader : EventReader E
    file_reader = record {
      Log = CountedLog;
      Has = IsCounted;
      read_page = λ o l. answered (read_range c true l.total_events o l.log);
      read_page-IsPage = file-IsPage;
    }
