-- ===== src/Tests/Guard.antt =====
-- The content guard on names and contents.
use gasworks.Prelude.{◌≡◌, ◌↔◌, refl, true, false, none, some, ◌∷◌, ◌++◌, codes, take}
use gasworks.ContentGuard.Fnmatch.{Bytes, glob_match, fnmatch}
use gasworks.ContentGuard.Fnmatch.Grammar.{Matches}
use gasworks.ContentGuard.Fnmatch.Decides.{Answers, glob_match-Answers}
use gasworks.ContentGuard.Screen.{
  denylisted_name, pem_content, sniff_bytes, pem_bom, is_blank, screen_name, screen_content,
}
use gasworks.ContentGuard.Screen.Names.{Denied, Shape, screen_name_iff}
use gasworks.ContentGuard.Screen.Pem.{StartsPem, screen_content_iff}

token_file : fnmatch (codes "my_token_1.json") (codes "*token*.json") ≡ true
unfolding fnmatch glob_match
token_file = refl

class_file : fnmatch (codes "b]") (codes "[!a-]?") ≡ true
unfolding fnmatch glob_match
class_file = refl

open_class : fnmatch (codes "[ab") (codes "[a*") ≡ true
unfolding fnmatch glob_match
open_class = refl

-- A caret negates a class too, a range joins the one in front of it, and the start of a range is a
-- member even if its end is below.
caret_class : fnmatch (codes "b") (codes "[^a]") ≡ true
unfolding fnmatch glob_match
caret_class = refl

joined_ranges : fnmatch (codes "-") (codes "[a-b-c]") ≡ false
unfolding fnmatch glob_match
joined_ranges = refl

falling_range : fnmatch (codes "z") (codes "[z-a]") ≡ true
unfolding fnmatch glob_match
falling_range = refl

glob_match-Answers_example :
    Answers
      (glob_match (codes "my_token_1.json") (codes "*token*.json"))
      (Matches (codes "*token*.json") (codes "my_token_1.json"))
glob_match-Answers_example = glob_match-Answers (codes "my_token_1.json") (codes "*token*.json")

-- A path without a directory, in lower case already.
abbrev agent_file : Bytes
agent_file = codes "agent-0f3.jsonl"

abbrev same_text : Bytes → Bytes
same_text s = s

screen_name_iff_example :
    ((screen_name same_text same_text (codes "claude") agent_file ≡ none)
      ↔ ((¬ Denied agent_file agent_file) × Shape (codes "claude") agent_file))
    × ((screen_name same_text same_text (codes "claude") agent_file ≡ some denylisted_name)
        ↔ Denied agent_file agent_file)
screen_name_iff_example = screen_name_iff same_text same_text (codes "claude") agent_file

abbrev key_file : Bytes
key_file = pem_bom ++ (10 ∷ codes "-----BEGIN KEY")

screen_content_iff_example :
    (screen_content key_file ≡ some pem_content) ↔ StartsPem (take sniff_bytes key_file)
screen_content_iff_example = screen_content_iff key_file

key_file_refused : screen_content key_file ≡ some pem_content
unfolding screen_content is_blank
key_file_refused = refl
