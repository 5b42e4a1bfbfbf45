-- ===== src/Tests/Server.antt =====
-- src/server.c at concrete inputs.
use sleepytext.Prelude.{
  ℕ, ◌≡◌, ◌≢◌, refl, some, none, List, [], ◌∷◌, ◌++◌, ◌==◌, if◌then◌else◌, length, take, ◌^◌, arith,
}
use sleepytext.Prelude.Int.{pos}
use sleepytext.Prelude.Text.{codes}
use sleepytext.Prelude.Words.{to_int}
use sleepytext.Memory.{Mem}
use sleepytext.Memory.Write.{at_heap}
use sleepytext.Bytes.{Bytes, view, bvoid}
use sleepytext.Bytes.Views.{Views}
use sleepytext.Server.Pages.{http_callback_root}
use sleepytext.Server.Pages.Read.{page_response, http_callback_root-page_response}
use sleepytext.Bytes.Print.{show_int}
use sleepytext.Http.{HttpRequest, http_result, http_ok}
use sleepytext.System.Files.{Files}
use sleepytext.Server.Feed.{http_callback_feed}
use sleepytext.Server.Feed.Items.{Item, select, change, encode, stored, apply}
use sleepytext.Server.Feed.Applied.{http_callback_feed-apply}
use sleepytext.Server.Wire.Path.{branch_name}
use sleepytext.System.{done, unfinished}
use sleepytext.Server.Feed.Ended.{http_callback_feed-ends}

-- The world is the list of what was opened and written.
abbrev pub files : Files (List (List ℕ))
files = record {
  open_append = λ path w. (pos 3, w ++ (path ∷ []));
  write_file = λ file bytes w. (tt, w ++ (bytes ∷ []));
  open_read = λ path w. (pos 4, w);
  read_file = λ file count w. (some (codes "text"), w);
}

abbrev items : List Item
items = select 12 ∷ change 7 (codes "ab") (codes "c") ∷ change 1 [] (codes "x") ∷ []

abbrev payload_mem : Mem
payload_mem = record {
  next = 1;
  room = 4096;
  garbage = λ a i. 170;
  objects = λ a. if a == 0 then some (codes "head" ++ (encode items ++ codes "z")) else none;
}

abbrev feed_request : HttpRequest
feed_request = record {
  header = bvoid;
  payload = view (at_heap 0 4) (length (encode items));
  addr = bvoid;
}

http_callback_feed-apply_example :
    (m' : Mem) × (http_callback_feed files 4 feed_request payload_mem []
      ≡ done (http_result http_ok) m' (
          codes "./branches/12"
          ∷ (stored 7 (codes "ab") (codes "c") ++ stored 1 [] (codes "x"))
          ∷ []))
unfolding apply branch_name show_int to_int
http_callback_feed-apply_example =
    http_callback_feed-apply files 4 items (codes "head") (codes "z") feed_request []
      (record { holds = refl; older = omega arith; room = omega arith }) (omega arith)
      (omega arith, tt) (omega arith) refl

abbrev roomy : Mem
roomy = record payload_mem { room = 2 ^ 20 }

http_callback_root-page_response_example :
    (page : Bytes) × (m' : Mem) × (http_callback_root files feed_request roomy []
      ≡ done (page_response page) m' [])
    × Views m' page (take (2 ^ 20) (codes "text"))
http_callback_root-page_response_example =
    http_callback_root-page_response files feed_request (codes "text") roomy [] (omega arith) refl

-- A change that claims 2^32 - 13 bytes, whose length wraps to 0.
abbrev wrapping : List ℕ
wrapping = b'b' ∷ 0 ∷ 0 ∷ 0 ∷ 12 ∷ b'i' ∷ 0 ∷ 0 ∷ 0 ∷ 7 ∷ 255 ∷ 255 ∷ 255 ∷ 243 ∷ 0 ∷ 0 ∷ 0 ∷ 0 ∷ []

http_callback_feed-ends_example :
    http_callback_feed files 38
      (record { header = bvoid; payload = view (at_heap 0 0) 18; addr = bvoid })
      (record payload_mem { objects = λ a. some wrapping })
      []
    ≢ unfinished
http_callback_feed-ends_example =
    http_callback_feed-ends files 38
      (record { header = bvoid; payload = view (at_heap 0 0) 18; addr = bvoid })
      (record payload_mem { objects = λ a. some wrapping }) [] (omega arith) (omega arith)
