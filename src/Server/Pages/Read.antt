-- ===== src/Server/Pages/Read.antt =====
-- src/server.c: the page that `root` answers with.
use sleepytext.Prelude.{ℕ, ◌+◌, ◌^◌, ◌≤◌, ◌≡◌, refl, some, List, length, take, length-take, arith}
use sleepytext.Prelude.Int.{ℤ}
use sleepytext.Prelude.Text.{codes}
use sleepytext.Memory.{Mem, fill}
use sleepytext.Memory.Overwrite.{overwrite, overwrite-StandsAt, StandsAt-Holds, length-fill}
use sleepytext.Memory.Write.{at_heap, written}
use sleepytext.Bytes.{Bytes, view}
use sleepytext.Bytes.Fresh.{allocated, allocated_own, balloc-allocated}
use sleepytext.Bytes.Print.Written.{write_bytes-overwrite}
use sleepytext.Bytes.Streams.{read_view}
use sleepytext.Bytes.Views.{Views}
use sleepytext.Http.{HttpRequest, HttpRawResponse, http_result, http_ok}
use sleepytext.Server.Pages.{http_callback_root}
use sleepytext.System.{done}
use sleepytext.System.Files.{Files}

abbrev pub page_response : Bytes → HttpRawResponse
page_response page = record (http_result http_ok) { payload = page }

module _ {W : Type 0} (files : Files W) where
  -- A read into the start of an object
  read_view-Views :
      (file : ℤ) (a n : ℕ) (cs text : List ℕ) (m : Mem) (w : W)
      → m.objects a ≡ some cs
      → n ≤ length cs
      → (files.read_file file n w).0 ≡ some text
      → let p = view (at_heap a 0) (length (take n text)) in
        let m' = written m a (overwrite cs 0 (take n text)) in
        (read_view files file (view (at_heap a 0) n) m w ≡ done p m' (files.read_file file n w).1)
        × Views m' p (take n text)
  unfolding read_view
  read_view-Views file a n cs text m w own room answer =
      let fits : 0 + length (take n text) ≤ length cs = omega (arith, length-take n text) in
      (
        rw (answer, write_bytes-overwrite (take n text) a 0 cs m own fits) refl,
        record {
          holds = StandsAt-Holds m a (overwrite-StandsAt cs 0 (take n text) fits);
          len_is = refl;
        },
      )

  -- The page, an object of its own
  abbrev pub page_of : List ℕ → Mem → List ℕ
  page_of text m = overwrite (fill (m.garbage m.next) 0 (2 ^ 20)) 0 (take (2 ^ 20) text)

  pub http_callback_root-written :
      (request : HttpRequest) (text : List ℕ) (m : Mem) (w : W)
      → 2 ^ 20 ≤ m.room
      → let opened = files.open_read (codes "html/main.html") w in
        (files.read_file opened.0 (2 ^ 20) opened.1).0 ≡ some text
        → let m' = written (allocated (2 ^ 20) m) m.next (page_of text m) in
          let page = view (at_heap m.next 0) (length (take (2 ^ 20) text)) in
          (http_callback_root files request m w
            ≡ done (page_response page) m' (files.read_file opened.0 (2 ^ 20) opened.1).1)
          × Views m' page (take (2 ^ 20) text)
  unfolding http_callback_root
  http_callback_root-written request text m w room answer =
      let opened = files.open_read (codes "html/main.html") w in
      let own = allocated_own (2 ^ 20) m in
      let (ran, views) =
        read_view-Views opened.0 m.next (2 ^ 20) (fill (m.garbage m.next) 0 (2 ^ 20)) text
          (allocated (2 ^ 20) m) opened.1 own
          (omega (arith, length-fill (m.garbage m.next) 0 (2 ^ 20))) answer in
      (rw (balloc-allocated (2 ^ 20) m room, ran) refl, views)

  -- Where there is memory for a page, and the read of html/main.html gives a text, root answers with
  -- the text, or with its first 2^20 bytes, in a new object.
  pub http_callback_root-page_response :
      (request : HttpRequest) (text : List ℕ) (m : Mem) (w : W)
      → 2 ^ 20 ≤ m.room
      → let opened = files.open_read (codes "html/main.html") w in
        (files.read_file opened.0 (2 ^ 20) opened.1).0 ≡ some text
        → (page : Bytes) × (m' : Mem) × (http_callback_root files request m w
            ≡ done (page_response page) m' (files.read_file opened.0 (2 ^ 20) opened.1).1)
          × Views m' page (take (2 ^ 20) text)
  http_callback_root-page_response request text m w room answer =
      let (ran, views) = http_callback_root-written request text m w room answer in
      (
        view (at_heap m.next 0) (length (take (2 ^ 20) text)),
        written (allocated (2 ^ 20) m) m.next (page_of text m),
        ran,
        views,
      )
