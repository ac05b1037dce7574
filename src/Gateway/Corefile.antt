-- ===== src/Gateway/Corefile.antt =====
-- internal/gateway/corefile.go: the rewrite block that a cube keeps in the live Corefile. The
-- proofs are in the modules below.
mod Search
pub mod Site
pub mod Splice
pub mod Converse
mod Block
pub mod Update
mod Tests
use mathlib.Core.List.{reverse}
use cube_idp.Base.{
  ℕ, suc, ◌+◌, ◌-◌, ◌*◌, Bool, false, ◌&&◌, ◌||◌, Option, none, some, List, [], ◌∷◌, ◌++◌, length,
  take, drop, Result, ◌>>=◌, ◌>>◌, has_prefix, trim_space, has_suffix, split_lines, join_lines,
  quote_meta, ltb, if◌then◌else◌, Text, txt, ◌==◌, ok, err,
}

-- newCorefileStructureError, with the values that the messages show.
pub data CorefileError : Type 0 where
  many_markers : (begins ends : ℕ) → CorefileError
  no_end_marker : CorefileError
  no_begin_marker : CorefileError
  end_before_begin : CorefileError
  above_server_block : CorefileError
  no_server_block : CorefileError
  many_server_blocks : ℕ → CorefileError

abbrev pub begin_marker : Text → Text
begin_marker cube = txt "# cube-idp:begin " ++ cube

abbrev pub end_marker : Text → Text
end_marker cube = txt "# cube-idp:end " ++ cube

abbrev pub block_indent : Text
block_indent = txt "    "

abbrev pub rule_indent : Text
rule_indent = txt "        "

abbrev pub default_server_token : Text
default_server_token = txt ".:53"

-- ServiceFQDN of gateway.go
abbrev pub service_fqdn : Text
service_fqdn = txt "gateway.gateway-system.svc.cluster.local."

pub render_block : (cube domain : Text) → List Text
render_block cube domain =
    (block_indent ++ begin_marker cube)
    ∷ (block_indent ++ txt "rewrite stop {")
    ∷ (rule_indent
        ++ (txt "name regex (.*)\\." ++ (quote_meta domain ++ (txt "\\.$ " ++ service_fqdn))))
    ∷ (rule_indent ++ txt "answer auto")
    ∷ (block_indent ++ txt "}")
    ∷ (block_indent ++ end_marker cube)
    ∷ []

-- The loop of findLines and that of defaultServerLine: the positions, from `i` on, of the lines
-- that pass a test.
pub positions : (Text → Bool) → ℕ → List Text → List ℕ
positions test i [] = []
positions test i (line ∷ lines) =
    let later = positions test (suc i) lines in if test line then i ∷ later else later

abbrev pub is_line : Text → Text → Bool
is_line want line = trim_space line == want

pub find_lines : List Text → Text → List ℕ
unfolding positions
find_lines lines want = positions (is_line want) 0 lines

-- t[len(p):len(t)-1], for a text that begins with p and ends with one more code point.
pub between : (p t : Text) → Text
between p t = take (length (drop (length p) t) - 1) (drop (length p) t)

pub is_default_server_open : Text → Bool
unfolding between
is_default_server_open line =
    let t = trim_space line in
    has_prefix default_server_token t
    && has_suffix (txt "{") t
    && (trim_space (between default_server_token t) == [])

-- The last case of the switch and the return: one begin and one end marker.
pub in_order : (begin end : ℕ) → Result CorefileError (Option (ℕ × ℕ))
in_order begin end = if ltb end begin then err end_before_begin else ok (some (begin, end))

-- The switch of markerRange. `none` is found=false.
pub pair_up : List ℕ → List ℕ → Result CorefileError (Option (ℕ × ℕ))
unfolding in_order
pair_up [] [] = ok none
pair_up (b ∷ []) [] = err no_end_marker
pair_up [] (e ∷ []) = err no_begin_marker
pair_up (b ∷ []) (e ∷ []) = in_order b e
pair_up begins ends = err (many_markers (length begins) (length ends))

pub marker_range : List Text → Text → Result CorefileError (Option (ℕ × ℕ))
unfolding find_lines pair_up
marker_range lines cube =
    pair_up (find_lines lines (begin_marker cube)) (find_lines lines (end_marker cube))

pub any_server_open : List Text → Bool
any_server_open [] = false
any_server_open (line ∷ lines) = is_default_server_open line || any_server_open lines

pub require_server_block_above : List Text → ℕ → Result CorefileError (Unit {0})
unfolding any_server_open
require_server_block_above lines begin =
    if any_server_open (take begin lines) then ok tt else err above_server_block

pub only_open : List ℕ → Result CorefileError ℕ
only_open [] = err no_server_block
only_open (i ∷ []) = ok i
only_open (i ∷ j ∷ more) = err (many_server_blocks (length (i ∷ j ∷ more)))

pub default_server_line : List Text → Result CorefileError ℕ
unfolding positions only_open
default_server_line lines = only_open (positions is_default_server_open 0 lines)

pub splice_lines : (before block after : List Text) → Text
splice_lines before block after = join_lines (before ++ (block ++ after))

-- What CorefileSplice does with the answer of markerRange.
pub place_block : List Text → (block : List Text) → Option (ℕ × ℕ) → Result CorefileError Text
unfolding splice_lines require_server_block_above default_server_line
place_block lines block (some (begin, end)) =
    require_server_block_above lines begin
    >> ok (splice_lines (take begin lines) block (drop (end + 1) lines))
place_block lines block none = default_server_line lines >>= λ open_line.
    ok (splice_lines (take (open_line + 1) lines) block (drop (open_line + 1) lines))

pub corefile_splice : (corefile cube domain : Text) → Result CorefileError Text
unfolding marker_range place_block render_block
corefile_splice corefile cube domain =
    let lines = split_lines corefile in
    marker_range lines cube >>= λ range. place_block lines (render_block cube domain) range
