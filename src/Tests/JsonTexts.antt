-- ===== src/Tests/JsonTexts.antt =====
-- Lists of texts written as one text and read back: two characters for each character and for each
-- text's end. It stands for what serde makes of them.
use Prim.Native.Char.{Char, code}
use rd_rs.Prelude.{◌≡◌, refl, ap, some, List, [], ◌∷◌, String, if◌then◌else◌, ◌==◌}
use rd_rs.Torrent.Types.{FileStates}
use rd_rs.Db.{Json, IsJson}

unfoldable written_before : String → String → String
written_before String.[] rest = String.◌∷◌ "e" (String.◌∷◌ "e" rest)
written_before (String.◌∷◌ c s) rest = String.◌∷◌ "c" (String.◌∷◌ c (written_before s rest))

unfoldable write_texts : List String → String
unfolding written_before
write_texts [] = ""
write_texts (s ∷ ss) = written_before s (write_texts ss)

abbrev push : Char → List String → List String
push c [] = String.◌∷◌ c "" ∷ []
push c (s ∷ ss) = String.◌∷◌ c s ∷ ss

unfoldable read_texts : String → List String
read_texts String.[] = []
read_texts (String.◌∷◌ m String.[]) = []
read_texts (String.◌∷◌ m (String.◌∷◌ c s)) =
    let rest = read_texts s in if code m == 101 then "" ∷ rest else push c rest

read_texts-written_before :
    (s rest : String) → read_texts (written_before s rest) ≡ s ∷ read_texts rest
unfolding read_texts written_before
read_texts-written_before String.[] rest = refl
read_texts-written_before (String.◌∷◌ c s) rest = ap (push c) (read_texts-written_before s rest)

read_texts-write_texts : (ss : List String) → read_texts (write_texts ss) ≡ ss
unfolding read_texts write_texts
read_texts-write_texts [] = refl
read_texts-write_texts (s ∷ ss) =
    rw (read_texts-written_before s (write_texts ss), read_texts-write_texts ss) refl

unfoldable flat : FileStates → List String
flat [] = []
flat ((path, state) ∷ m) = path ∷ state ∷ flat m

unfoldable paired : List String → FileStates
paired [] = []
paired (path ∷ []) = []
paired (path ∷ state ∷ ss) = (path, state) ∷ paired ss

paired-flat : (m : FileStates) → paired (flat m) ≡ m
unfolding paired flat
paired-flat [] = refl
paired-flat ((path, state) ∷ m) = ap (λ r. (path, state) ∷ r) (paired-flat m)

unfoldable pub texts_json : Json
unfolding write_texts read_texts flat paired
texts_json = record {
  write_states = λ m. some (write_texts (flat m));
  read_states = λ s. some (paired (read_texts s));
  write_ids = λ ids. some (write_texts ids);
  read_ids = λ s. some (read_texts s);
}

pub texts_json-IsJson : IsJson texts_json
unfolding texts_json
texts_json-IsJson = record {
  states_back = λ m. rw (read_texts-write_texts (flat m), paired-flat m) refl;
  ids_back = λ ids. rw (read_texts-write_texts ids) refl;
}
