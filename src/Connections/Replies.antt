-- ===== src/Connections/Replies.antt =====
-- src/http_server.c: the response of a callback in memory, and the objects that it leaves as they are.
use sleepytext.Bytes.Stored.{StandsAt-Views, Stored, freed, bfree-freed, freed-Stored, Keeps}
use sleepytext.Prelude.{ℕ, ◌+◌, ◌≤◌, ◌<◌, ◌≡◌, refl, List, [], length, arith}
use sleepytext.Memory.{Mem, ok, free}
use sleepytext.Memory.Holds.{Holds}
use sleepytext.Memory.Overwrite.{StandsAt}
use sleepytext.Memory.Write.{at_heap}
use sleepytext.Bytes.{Bytes, view, bvoid, bfree}
use sleepytext.Bytes.Views.{Views}
use sleepytext.Http.{HttpRequest, HttpRawResponse, HttpResult, http_result}
use sleepytext.Http.Response.{known_status}
use sleepytext.Http.Response.Plain.{header_text}
use sleepytext.HttpServer.{Handler}
use sleepytext.System.{done}

-- The payload of a response: nothing, or the text at the start of an object that was made after `m`.
pub data HasPayload (m m' : Mem) : Bytes → List ℕ → Type 0 where
  no_payload : HasPayload m m' bvoid []
  payload_at :
      (c : ℕ) {ps bytes : List ℕ}
      → m.next ≤ c
      → Stored m' c bytes
      → StandsAt bytes 0 ps
      → HasPayload m m' (view (at_heap c 0) (length ps)) ps

-- A response without header fields, of this status and with this payload.
abbrev pub plain_response : HttpResult → List ℕ → HttpRawResponse
plain_response status ps = record (http_result status) {
  payload = record bvoid { len = length ps };
}

pub plain_response-header_text :
    (raw : HttpRawResponse) {status : HttpResult} (ps : List ℕ)
    → raw.status ≡ status
    → raw.payload.len ≡ length ps
    → header_text raw ≡ header_text (plain_response status ps)
plain_response-header_text raw ps status_is len_is = rw (status_is, len_is) refl

module _ {W : Type 0} where
  -- A callback ends, with such a response, and keeps what memory there was, less `spent` bytes of room.
  pub record Gives (respond : Handler W) (request : HttpRequest) (m : Mem) (w : W)
      (status : HttpResult) (ps : List ℕ) (spent : ℕ) (w' : W) : Type 0 where
    pub response : HttpRawResponse
    pub left : Mem
    pub ran : respond request m w ≡ done response left w'
    pub known : known_status response ≡ response
    pub status_is : response.status ≡ status
    pub plain : response.headers ≡ 0
    pub payload : HasPayload m left response.payload ps
    pub kept : Keeps m left
    pub room : m.room ≤ left.room + spent

pub HasPayload-Views :
    {m m1 m2 : Mem} {b : Bytes} {ps : List ℕ} → Keeps m1 m2 → HasPayload m m1 b ps → Views m2 b ps
HasPayload-Views keeps no_payload = record { holds = Holds.nil; len_is = refl }
HasPayload-Views keeps (payload_at c {ps} {bytes} new st at) = StandsAt-Views (keeps c bytes st) at

pub bfree-HasPayload :
    {m m1 : Mem} (m2 : Mem) {b : Bytes} {ps : List ℕ}
    → Keeps m1 m2
    → HasPayload m m1 b ps
    → (m' : Mem) × (bfree b m2 ≡ ok bvoid m')
      × (m2.room ≤ m'.room)
      × ((a : ℕ) (bytes : List ℕ) → a < m.next → Stored m2 a bytes → Stored m' a bytes)
unfolding bfree free
bfree-HasPayload m2 keeps no_payload = (m2, refl, omega arith, λ a bytes old st. st)
bfree-HasPayload m2 keeps (payload_at c {ps} {bytes} new st at) = (
  freed c (length bytes) m2,
  bfree-freed m2 c (length ps) bytes (keeps c bytes st),
  omega arith,
  λ a bytes' old st'. freed-Stored c (length bytes) (omega arith) st',
)
