-- ===== src/Scanner/Input/Files.antt =====
-- `ScanFile` of internal/scanner/io.go: the guards before a file is opened, the scan of its lines,
-- and the scan of its reads where a line is too long. The deadlines that it puts on the context are
-- part of what the context answers.
use promptshield_beta.Base.{
  Bool, Option, if◌then◌else◌, ◌||◌, some, true, List, ◌++◌, false, none, ◌&&◌,
}
use promptshield_beta.Base.Text.{Str, bytes}
use promptshield_beta.Scanner.Input.{
  Config, failure_text, ScanError, scan_reader, Environment, scanning, Failure, memory_ceiling,
  opening, chunked_read, file_size_limit, invalid_file_size, stream_limit_exceeded, Outcome,
  cancelled, failed, done,
}
use promptshield_beta.Scanner.Evaluate.{index, Scanner}
use promptshield_beta.Scanner.Input.Chunks.{scan_chunked}
use promptshield_beta.Base.Int.{ℤ, is_pos, ltb_int, pos, pos_part}
use promptshield_beta.Base.Map.{is_some}
use promptshield_beta.Base.Decimal.{decimal}

pub record FileInfo : Type 0 where
  pub is_dir : Bool
  pub size : ℤ

-- What the system answers for one file: the error of the context before anything is done, the
-- results of Stat, Open and Seek, and the text, with how the first scan and the second one read it.
pub record File : Type 0 where
  pub ctx_err : Option Str
  pub info : Option FileInfo
  pub open_err : Option Str
  pub env : Environment
  pub text : Str
  pub read_err : Option Failure
  pub seek_err : Option Str
  pub reads : List (Str × Option Str)
  pub last : Str × Option Failure

-- fs.ErrInvalid
unfoldable pub invalid : Str
invalid = bytes "invalid argument"

-- The errors before the file is opened.
unfoldable pub refused : Config → Str → FileInfo → Option ScanError
unfolding invalid
refused c path fi =
    if fi.is_dir
    then some (opening path invalid)
    else if is_pos c.max_file_bytes && ltb_int c.max_file_bytes fi.size
    then some (file_size_limit path c.max_file_bytes)
    else if ltb_int fi.size (pos 0)
    then some (invalid_file_size path)
    else none

-- The text of an error of the first scan.
unfoldable pub error_text : ScanError → Str
unfolding failure_text
error_text (cancelled e) = e
error_text (memory_ceiling n) = bytes "memory ceiling exceeded: sys=" ++ decimal n ++ bytes " bytes"
error_text stream_limit_exceeded = bytes "stream byte limit exceeded"
error_text (scanning name e) = bytes "scanning " ++ name ++ bytes ": " ++ failure_text e
error_text (chunked_read name e) = bytes "chunked read " ++ name ++ bytes ": " ++ failure_text e
error_text (opening path e) = bytes "opening " ++ path ++ bytes ": " ++ e
error_text (file_size_limit path n) =
    path ++ bytes " exceeds max file size limit (" ++ decimal (pos_part n) ++ bytes " bytes)"
error_text (invalid_file_size path) = bytes "invalid file size for " ++ path

-- errors.Is(err, bufio.ErrTooLong)
unfoldable pub wraps_too_long : ScanError → Bool
wraps_too_long (scanning name Failure.too_long) = true
wraps_too_long e = false

unfoldable pub is_too_long : ScanError → Bool
unfolding wraps_too_long error_text index
is_too_long e = wraps_too_long e || is_some (index (error_text e) (bytes "token too long"))

-- After the first scan.
unfoldable pub fall_back : Scanner → Config → Str → File → Outcome → Outcome
unfolding is_too_long scan_chunked
fall_back s c path f (done r) = done r
fall_back s c path f (failed e) =
    if is_too_long e
    then elim f.seek_err [ some x ↦ failed e | none ↦ scan_chunked s c path f.reads f.last ]
    else failed e

unfoldable pub scan_file : Scanner → Config → Str → File → Outcome
unfolding refused fall_back scan_reader
scan_file s c path f =
    let before : Option ScanError = elim f.info [ none ↦ none | some fi ↦ refused c path fi ] in
    elim f.ctx_err [
      | some e ↦ failed (cancelled e)
      | none ↦ elim before [
        | some e ↦ failed e
        | none ↦ elim f.open_err [
          | some e ↦ failed (opening path e)
          | none ↦ fall_back s c path f (scan_reader s c f.env path f.text f.read_err)
        ]
      ]
    ]
