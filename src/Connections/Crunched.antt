-- ===== src/Connections/Crunched.antt =====
-- src/http_server.c: what becomes of the plaintext: nothing while the request is not complete, and the
-- answer where it is.
use sleepytext.Bytes.Stored.{
  Stored, allocated-Stored, fresh-Stored, written-Stored, written_self-Stored, freed, bfree-freed,
  freed-Stored, Keeps,
}
use sleepytext.Prelude.{
  ℕ, ◌+◌, ◌≤◌, ◌<◌, ◌≡◌, refl, List, true, ltb, length, inl, inr, Bool-cases, arith,
}
use sleepytext.Prelude.Words.{int_max, to_int_small}
use sleepytext.Memory.{Mem, ok}
use sleepytext.Memory.Holds.{Holds}
use sleepytext.Memory.Write.{at_heap, written}
use sleepytext.Bytes.{Bytes, view, bvoid}
use sleepytext.Bytes.Fresh.{allocated}
use sleepytext.Bytes.Print.Cstring.{read_bytes-Holds}
use sleepytext.Connections.{HttpTlsConnection, crunch, response_to, answer_request, ssl_write_view}
use sleepytext.Http.{HttpRequest, HttpResult, partial_request, http_parse_request}
use sleepytext.Http.Accept.{Crypto}
use sleepytext.Http.Response.Plain.{header_text, header_text-le, http_assemble_response-header_text}
use sleepytext.HttpServer.{HttpServer}
use sleepytext.System.{done}
use sleepytext.System.Sockets.{Sockets}
use sleepytext.System.Tls.{Tls}
use sleepytext.Connections.Replies.{
  plain_response, plain_response-header_text, HasPayload-Views, bfree-HasPayload, Gives,
}

module _ {W : Type 0} (ssl : Tls W) where
  -- OpenSSL is given the header and then the payload.
  abbrev pub replied : ℕ → HttpResult → List ℕ → W → W
  replied tls status ps w =
      (ssl.ssl_write tls ps (ssl.ssl_write tls (header_text (plain_response status ps)) w).1).1

module _ {W : Type 0} (net : Sockets W) (ssl : Tls W) (con : HttpTlsConnection) where
  ssl_write_view-Holds :
      (b : Bytes) {xs : List ℕ} (m : Mem) (w : W)
      → Holds m b.ptr xs
      → b.len ≡ length xs
      → length xs ≤ int_max
      → ssl_write_view net ssl con.tls b m w ≡ done tt m (ssl.ssl_write con.tls xs w).1
  unfolding ssl_write_view
  ssl_write_view-Holds b {xs} m w h is short =
      rw (ssl_write_view, is, to_int_small (length xs) short, read_bytes-Holds (length xs) h refl)
        refl

  module _ (crypto : Crypto) (server : HttpServer W) where
    -- A callback's response is written, and the buffer freed.
    answer_request-replied :
        {parsed : HttpRequest} {m : Mem} {w : W} {status : HttpResult} {ps : List ℕ} {spent : ℕ}
        {w' : W} (a : ℕ) (bytes : List ℕ) (k : ℕ)
        → Gives (response_to net ssl crypto server) parsed m w status ps spent w'
        → con.buffer ≡ view (at_heap a 0) k
        → Stored m a bytes
        → length ps ≤ int_max
        → 4096 + spent ≤ m.room
        → (m' : Mem) × (answer_request net ssl crypto server parsed con m w
            ≡ done (record con { buffer = bvoid }) m' (replied ssl con.tls status ps w'))
          × (m.room ≤ m'.room + spent)
    unfolding answer_request written
    answer_request-replied {m = m} {status = status} {ps = ps} {w' = w'} a bytes k g buffer st short
          room =
        let m1 = g.left in
        let (cs, assembled, size, holds) =
          http_assemble_response-header_text g.response m1 (rw g.known g.plain)
            (omega (arith, g.room)) in
        let m2 = written (allocated 4096 m1) m1.next cs in
        let keeps2 : Keeps m1 m2 = λ b bs' st'.
          written-Stored m1.next cs (omega (arith, st'.older)) (allocated-Stored 4096 st') in
        let st2 : Stored m2 m1.next cs = written_self-Stored cs (fresh-Stored 4096 m1) in
        let views = HasPayload-Views keeps2 g.payload in
        let text_is : header_text g.response ≡ header_text (plain_response status ps) =
          plain_response-header_text g.response ps g.status_is views.len_is in
        let header_sent =
          ssl_write_view-Holds (view (at_heap m1.next 0) (length (header_text g.response))) m2 w'
            (rw g.known at holds) refl (omega (arith, header_text-le g.response)) in
        let payload_sent =
          ssl_write_view-Holds g.response.payload m2
            (ssl.ssl_write con.tls (header_text g.response) w').1 views.holds views.len_is short in
        let m3 = freed m1.next (length cs) m2 in
        let header_freed = bfree-freed m2 m1.next (length (header_text g.response)) cs st2 in
        let keeps3 : Keeps m1 m3 = λ b bs' st'.
          freed-Stored m1.next (length cs) (omega (arith, st'.older)) (keeps2 b bs' st') in
        let (m4, payload_freed, room4, kept4) = bfree-HasPayload m3 keeps3 g.payload in
        let buffer_freed =
          bfree-freed m4 a k bytes (kept4 a bytes st.older (keeps3 a bytes (g.kept a bytes st))) in
        (
          freed a (length bytes) m4,
          rw
              (
                g.ran, assembled, g.known, header_sent, payload_sent, header_freed, payload_freed,
                buffer, buffer_freed, text_is,
              )
              refl,
          omega (arith, size, room4, g.room),
        )

    -- Nothing is done while the request is not complete.
    pub crunch-partial :
        (n : ℕ) (m : Mem) (w : W)
        → http_parse_request con.buffer m ≡ ok partial_request m
        → crunch net ssl crypto server n con m w ≡ done con m w
    unfolding crunch
    crunch-partial n m w partial = elim (Bool-cases (ltb 0 n)) [
      | inl some_bytes ↦ rw (some_bytes, partial) refl
      | inr none_new ↦ rw none_new refl
    ]

    pub crunch-replied :
        {parsed : HttpRequest} {m : Mem} {w : W} {status : HttpResult} {ps : List ℕ} {spent : ℕ}
        {w' : W} (n a : ℕ) (bytes : List ℕ) (k : ℕ)
        → http_parse_request con.buffer m ≡ ok parsed m
        → 0 < n
        → 0 < parsed.addr.len
        → Gives (response_to net ssl crypto server) parsed m w status ps spent w'
        → con.buffer ≡ view (at_heap a 0) k
        → Stored m a bytes
        → length ps ≤ int_max
        → 4096 + spent ≤ m.room
        → (m' : Mem) × (crunch net ssl crypto server n con m w
            ≡ done (record con { buffer = bvoid }) m' (replied ssl con.tls status ps w'))
          × (m.room ≤ m'.room + spent)
    unfolding crunch
    crunch-replied {parsed} n a bytes k parses some_bytes addressed g buffer st short room =
        let (m', ran, room') = answer_request-replied a bytes k g buffer st short room in
        let some_bytes' : ltb 0 n ≡ true = ground arith in
        let addressed' : ltb 0 parsed.addr.len ≡ true = ground arith in
        (m', rw (some_bytes', parses, addressed') ran, room')
