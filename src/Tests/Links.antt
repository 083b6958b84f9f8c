-- ===== src/Tests/Links.antt =====
-- The theorems on unrestricted links.
use rd_rs.Prelude.{◌≡◌, refl, inl, inr, Bool-cases, true, Option, none, some, [], if◌then◌else◌}
use rd_rs.Prelude.Int.{pos}
use rd_rs.Prelude.Map.{◌=?◌, string_keys}
use rd_rs.Rd.Client.Errors.{api, traffic_exhausted}
use rd_rs.Torrent.Types.{Download}
use rd_rs.Repair.Account.{Answer, answered, failed}
use rd_rs.Rd.Unrestrict.{Server, Client, unrestrict_link}
use rd_rs.Rd.Unrestrict.Rounds.{is_returned, AllReturn, unrestrict_link-is_returned}
use rd_rs.Rd.Unrestrict.Cached.{unrestrict_link-again}
use rd_rs.Tests.Clients.{fresh_pool, fresh_pool-IsPool, two_tokens-Distinct}

abbrev movie : Download
movie = record { filename = "m"; filesize = pos 1; link = "l"; download = "h/d/C/m"; token = "" }

-- The first token's traffic is used up.
abbrev server : Server
server = record {
  answer = λ n token link.
      if token =? "one" then some (failed (api (traffic_exhausted ""))) else some (answered movie);
  now = λ n. n;
}

abbrev client : Client
client = record { pool = fresh_pool; rows = []; requests = 0 }

server-AllReturn : AllReturn server "l"
server-AllReturn n token = elim (Bool-cases (token =? "one")) [
  | inl first ↦ rw first refl
  | inr other ↦ rw other refl
]

-- The answer and the client after the call.
abbrev answer_of : Option (Answer Download × Client) → Answer Download × Client
answer_of none = (answered movie, client)
answer_of (some r) = r

abbrev base_movie : Download
base_movie = record movie { download = "h/d/C"; token = "two" }

abbrev later : Client
unfolding unrestrict_link
later = (answer_of (unrestrict_link server "l" client)).1

unrestrict_link-is_returned_example : is_returned (unrestrict_link server "l" client) ≡ true
unrestrict_link-is_returned_example =
    unrestrict_link-is_returned server "l" client server-AllReturn fresh_pool-IsPool
      two_tokens-Distinct

unrestrict_link-again_example : unrestrict_link server "l" later ≡ some (answered base_movie, later)
unfolding unrestrict_link later
unrestrict_link-again_example = unrestrict_link-again server "l" client later base_movie refl
