-- ===== src/ContentGuard/Screen.antt =====
-- contentguard/contentguard.go: the screens on a transcript's name and on its first bytes.
-- filepath.Base and strings.ToLower are parameters.
mod Uuid
pub mod Names
pub mod Pem
use gasworks.Prelude.{
  ℕ, zero, suc, ◌+◌, Bool, true, false, not, ◌&&◌, ◌||◌, List, [], ◌∷◌, Option, none, some,
  if◌then◌else◌, ◌==◌, ltb, leb, length, take, drop, list_eq, codes, has_prefix, has_suffix,
  without_suffix,
}
use gasworks.ContentGuard.Fnmatch.{Bytes, fnmatch}

pub data Reason : Type 0 where
  denylisted_name not_allowlisted pem_content : Reason

abbrev pub sniff_bytes : ℕ
sniff_bytes = 64

abbrev pub deny_basenames : List Bytes
deny_basenames =
    codes "credentials.json"
    ∷ codes ".credentials.json"
    ∷ codes "auth.json"
    ∷ codes ".claude.json"
    ∷ codes "google_accounts.json"
    ∷ codes "settings.json"
    ∷ codes "config.json"
    ∷ codes "mcp.json"
    ∷ codes "mcp_config.json"
    ∷ codes "mcp-needs-auth-cache.json"
    ∷ codes "stats-cache.json"
    ∷ codes "history.jsonl"
    ∷ []

abbrev pub deny_globs : List Bytes
deny_globs =
    codes "*mcp*.json"
    ∷ codes "settings*.json"
    ∷ codes "*.env"
    ∷ codes "*token*.json"
    ∷ codes "*secret*.json"
    ∷ codes "*key*.json"
    ∷ []

-- denyBasenames[name]
unfoldable pub is_listed : Bytes → List Bytes → Bool
is_listed name [] = false
is_listed name (n ∷ ns) = list_eq name n || is_listed name ns

unfoldable pub any_glob : Bytes → List Bytes → Bool
any_glob name [] = false
any_glob name (g ∷ gs) = fnmatch name g || any_glob name gs

abbrev pub uuid_layout : Bytes
uuid_layout = codes "xxxxxxxx-xxxx-xxxx-xxxx-xxxxxxxxxxxx"

unfoldable pub is_hex : ℕ → Bool
is_hex c = leb b'0' c && leb c b'9' || leb b'a' c && leb c b'f'

-- The loop of isUUIDStem over the layout and the stem, which are equally long.
unfoldable pub follows : Bytes → Bytes → Bool
follows (l ∷ layout) (c ∷ s) =
    let rest = follows layout s in
    if l == b'-' then if c == b'-' then rest else false else if is_hex c then rest else false
follows [] s = true
follows (l ∷ layout) [] = true

unfoldable pub is_uuid_stem : Bytes → Bool
unfolding follows
is_uuid_stem s = if length s == length uuid_layout then follows uuid_layout s else false

unfoldable pub all_hex : Bytes → Bool
all_hex [] = true
all_hex (c ∷ s) = let rest = all_hex s in if is_hex c then rest else false

unfoldable pub no_bytes : Bytes → Bool
no_bytes [] = true
no_bytes (c ∷ s) = false

unfoldable pub is_agent_hex_stem : Bytes → Bool
unfolding all_hex no_bytes
is_agent_hex_stem s =
    if has_prefix s (codes "agent-")
    then (let hex = drop 6 s in if no_bytes hex then false else all_hex hex)
    else false

module _ (base to_lower : Bytes → Bytes) where
  unfoldable pub denied : Bytes → Bool
  denied name =
      let lower = to_lower name in
      if has_prefix name (codes ".")
      then true
      else if is_listed lower deny_basenames
      then true
      else any_glob lower deny_globs

  unfoldable pub allowed : Bytes → Bytes → Bool
  allowed provider name =
      let lower = to_lower name in
      let stem = without_suffix lower (codes ".jsonl") in
      if list_eq provider (codes "claude")
      then if has_suffix lower (codes ".jsonl")
        then is_uuid_stem stem || is_agent_hex_stem stem
        else false
      else if list_eq provider (codes "codex")
      then has_suffix lower (codes ".jsonl") && has_prefix lower (codes "rollout-")
      else false

  unfoldable pub screen_name : Bytes → Bytes → Option Reason
  unfolding denied allowed
  screen_name provider path =
      let name = base path in
      if denied name
      then some denylisted_name
      else if not (allowed provider name)
      then some not_allowlisted
      else none

abbrev pub pem_bom : Bytes
pem_bom = 0xEF ∷ 0xBB ∷ 0xBF ∷ []

-- The cut set " \t\r\n\v\f\x00".
unfoldable pub is_blank : ℕ → Bool
is_blank c = c == 32 || c == 9 || c == 13 || c == 10 || c == 11 || c == 12 || c == 0

-- bytes.TrimLeft
unfoldable pub trim_left : Bytes → Bytes
trim_left [] = []
trim_left (c ∷ s) = let rest = trim_left s in if is_blank c then rest else c ∷ s

-- bytes.TrimPrefix(head, pemBOM)
unfoldable pub trim_bom : Bytes → Bytes
trim_bom s = if has_prefix s pem_bom then drop 3 s else s

unfoldable pub looks_like_pem : Bytes → Bool
unfolding trim_bom trim_left
looks_like_pem s = has_prefix (trim_left (trim_bom s)) (codes "-----BEGIN")

unfoldable pub screen_content : Bytes → Option Reason
unfolding looks_like_pem
screen_content content =
    let sniffed = if ltb sniff_bytes (length content) then take sniff_bytes content else content in
    if looks_like_pem sniffed then some pem_content else none
