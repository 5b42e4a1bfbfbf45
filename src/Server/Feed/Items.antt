-- ===== src/Server/Feed/Items.antt =====
-- src/server.c: the payload of a feed as a list of records, as html/js/network.js sends them, and
-- what becomes of the files.
use sleepytext.Prelude.{
  ℕ, ◌+◌, ◌^◌, ◌<◌, ◌≡◌, List, [], ◌∷◌, ◌++◌, if◌then◌else◌, length, length-append, arith,
}
use sleepytext.Prelude.Int.{ℤ}
use sleepytext.Http.{HttpResult, http_ok, http_bad_request}
use sleepytext.Server.Wire.{le32}
use sleepytext.Server.Wire.Numbers.{be32}
use sleepytext.Server.Wire.Path.{branch_name}
use sleepytext.System.Files.{Files, is_minus_one}

-- `select id` is `b` with a branch, and `change place last now` is `i`: at `place` the text `last` was
-- replaced by `now`.
pub data Item : Type 0 where
  select : ℕ → Item
  change : ℕ → List ℕ → List ℕ → Item

abbrev pub encode_item : Item → List ℕ
encode_item (select id) = b'b' ∷ be32 id
encode_item (change place last now) =
    b'i' ∷ (be32 place ++ (be32 (length last) ++ (be32 (length now) ++ (last ++ now))))

abbrev pub encode : List Item → List ℕ
encode [] = []
encode (x ∷ xs) = encode_item x ++ encode xs

-- What stands in the file for a change: its lengths are in the byte order of the machine.
abbrev pub stored : ℕ → List ℕ → List ℕ → List ℕ
stored place last now =
    b'i' ∷ (be32 place ++ (le32 (length last) ++ (le32 (length now) ++ (last ++ now))))

-- A branch number fits in its four bytes.
abbrev pub AreItems : List Item → Type 0
AreItems [] = Unit
AreItems (select id ∷ items) = (id < 2 ^ 32) × AreItems items
AreItems (change place last now ∷ items) = AreItems items

pub length-encode_item :
    (place : ℕ) (last now : List ℕ)
    → length (encode_item (change place last now)) ≡ 13 + length last + length now
length-encode_item place last now = omega (arith, length-append last now)

-- The answer and the world after a list of records, where `pending` holds the changes to `file`
-- that have not been written. A record `b` and the end of the list write them; a record `i` with no
-- file, and a file that cannot be opened, end the request.
module _ {W : Type 0} (files : Files W) where
  abbrev pub flush : ℤ → List ℕ → W → W
  flush file pending w = if is_minus_one file then w else (files.write_file file pending w).1

  unfoldable pub apply : ℤ → List ℕ → List Item → W → HttpResult × W
  apply file pending [] w = (http_ok, (files.write_file file pending w).1)
  apply file pending (select id ∷ items) w =
      let opened = files.open_append (branch_name id) (flush file pending w) in
      let rest = apply opened.0 [] items opened.1 in
      if is_minus_one opened.0 then (http_bad_request, opened.1) else rest
  apply file pending (change place last now ∷ items) w =
      let rest = apply file (pending ++ stored place last now) items w in
      if is_minus_one file then (http_bad_request, w) else rest
