-- ===== src/Rd/Client/Errors.antt =====
-- The errors of src/rd/client/errors.rs and how they are told apart.
use rd_rs.Prelude.{ℕ, Bool, true, false, ◌||◌, ◌&&◌, String, leb, ◌==◌, if◌then◌else◌}
use rd_rs.Prelude.Int.{ℤ, pos, negsuc}
use rd_rs.Prelude.Map.{◌=?◌, string_keys}

pub data ApiError : Type 0 where
  rate_limit : (code : ℤ) (message : String) → ApiError
  traffic_exhausted : (message : String) → ApiError
  internal : (message : String) → ApiError
  fair_usage_limit : (message : String) → ApiError
  other_api : (code : ℤ) (message : String) → ApiError

pub data DownloadError : Type 0 where
  invalid_download_code : DownloadError
  failed_generation : DownloadError
  too_many_attempts : DownloadError
  file_unavailable : DownloadError
  bytes_limit_reached : DownloadError
  link_unavailable : (status : ℕ) → DownloadError
  server_error : (status : ℕ) → DownloadError
  other_download : (message : String) → DownloadError

pub data RdError : Type 0 where
  api : ApiError → RdError
  download : DownloadError → RdError
  network : RdError
  cancelled : RdError
  range_not_supported : RdError
  max_retries_exceeded : RdError

-- `ApiError::from_code`.
unfoldable pub from_code : ℤ → String → ApiError
from_code (pos n) message =
    if (n == 5) || ((n == 34) || (n == 429))
    then rate_limit (pos n) message
    else if n == 23
    then traffic_exhausted message
    else if n == 36
    then fair_usage_limit message
    else other_api (pos n) message
from_code (negsuc n) message = if n == 0 then internal message else other_api (negsuc n) message

abbrev pub should_retry : ApiError → Bool
should_retry (rate_limit code message) = true
should_retry (traffic_exhausted message) = true
should_retry (internal message) = true
should_retry (fair_usage_limit message) = true
should_retry (other_api code message) = false

-- `ApiError::is_bandwidth_limited`.
abbrev pub is_api_limited : ApiError → Bool
is_api_limited (rate_limit code message) = false
is_api_limited (traffic_exhausted message) = true
is_api_limited (internal message) = false
is_api_limited (fair_usage_limit message) = true
is_api_limited (other_api code message) = false

-- `DownloadError::from_header`.
unfoldable pub from_header : String → ℕ → DownloadError
from_header msg status =
    if msg =? "invalid_download_code"
    then invalid_download_code
    else if msg =? "failed_generation"
    then failed_generation
    else if msg =? "too_many_attempts"
    then too_many_attempts
    else if msg =? "file_unavailable"
    then file_unavailable
    else if msg =? "bytes_limit_reached"
    then bytes_limit_reached
    else if leb 500 status && leb status 599
    then server_error status
    else if (status == 401) || ((status == 403) || (status == 404))
    then link_unavailable status
    else other_download msg

-- `DownloadError::should_refresh_via_unrestrict`.
abbrev pub should_refresh_link : DownloadError → Bool
should_refresh_link invalid_download_code = true
should_refresh_link failed_generation = true
should_refresh_link too_many_attempts = true
should_refresh_link file_unavailable = false
should_refresh_link bytes_limit_reached = false
should_refresh_link (link_unavailable status) = true
should_refresh_link (server_error status) = false
should_refresh_link (other_download message) = false

-- `RdError::should_refresh_via_unrestrict`.
abbrev pub should_refresh_via_unrestrict : RdError → Bool
should_refresh_via_unrestrict (api e) = false
should_refresh_via_unrestrict (download e) = should_refresh_link e
should_refresh_via_unrestrict network = false
should_refresh_via_unrestrict cancelled = false
should_refresh_via_unrestrict range_not_supported = false
should_refresh_via_unrestrict max_retries_exceeded = false

-- `BytesLimitReached` alone of the download errors.
abbrev pub is_bytes_limit : DownloadError → Bool
is_bytes_limit invalid_download_code = false
is_bytes_limit failed_generation = false
is_bytes_limit too_many_attempts = false
is_bytes_limit file_unavailable = false
is_bytes_limit bytes_limit_reached = true
is_bytes_limit (link_unavailable status) = false
is_bytes_limit (server_error status) = false
is_bytes_limit (other_download message) = false

-- `RdError::is_bandwidth_limited`.
abbrev pub is_bandwidth_limited : RdError → Bool
is_bandwidth_limited (api e) = is_api_limited e
is_bandwidth_limited (download e) = is_bytes_limit e
is_bandwidth_limited network = false
is_bandwidth_limited cancelled = false
is_bandwidth_limited range_not_supported = false
is_bandwidth_limited max_retries_exceeded = false
