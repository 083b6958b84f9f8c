-- ===== src/Repair/Reasons.antt =====
-- The reasons for which a torrent cannot be repaired: src/repair/reasons.rs, and the outcomes of
-- src/repair/mod.rs.
use rd_rs.Prelude.{◌||◌, ◌&&◌, Option, none, some, List, String, if◌then◌else◌}
use rd_rs.Prelude.Texts.{has_part}

abbrev pub missing_torrent_detail : String
missing_torrent_detail = "missing torrent detail (stale or removed rd id)"

abbrev pub not_cached_text : String
not_cached_text = "not cached (restricted to cached)"

-- `from_rd_error_message`, `to_lowercase` being that of Unicode.
unfoldable pub from_rd_error_message : (String → String) → String → Option String
from_rd_error_message to_lowercase msg =
    let m = to_lowercase msg in
    if has_part m "infringing"
    then some "infringing torrent"
    else if has_part m "unsupported"
    then some "unsupported torrent"
    else if has_part m "unavailable"
    then some "unavailable torrent"
    else if has_part m "invalid" && has_part m "torrent"
    then some "invalid torrent"
    else if has_part m "big" || has_part m "too large"
    then some "torrent too big"
    else if has_part m "not allowed"
    then some "torrent not allowed"
    else if has_part m "unknown" && (has_part m "resource" || has_part m "ressource")
    then some missing_torrent_detail
    else none

pub data UnrepairableReason : Type 0 where
  lone_broken no_repairable_files duplicate_file_ids invalid_file_ids not_cached :
      UnrepairableReason

-- `Display` of `UnrepairableReason`.
abbrev pub reason_text : UnrepairableReason → String
reason_text lone_broken = "lone_broken"
reason_text no_repairable_files = "no_repairable_files"
reason_text duplicate_file_ids = "duplicate_file_ids"
reason_text invalid_file_ids = "invalid_file_ids"
reason_text not_cached = not_cached_text

pub data CascadeOutcome : Type 0 where
  success : (new_rd_ids : Option (List String)) → CascadeOutcome
  unrepairable : UnrepairableReason → CascadeOutcome
  unrepairable_msg : String → CascadeOutcome
  defer_bandwidth : CascadeOutcome
