-- ===== src/RoundRobin/Summary.antt =====
-- `StatsSummary` of internal/sshroundrobin/healthcheck.go: the report on the upstreams, a line for each.
pub mod Lines
use ssh_roundrobin.Prelude.{ℕ, ◌+◌, ◌%◌, List, [], ◌∷◌, ◌++◌, if◌then◌else◌, get_or, pos}
use ssh_roundrobin.Text.{Text, codes, is_empty}
use ssh_roundrobin.Text.Decimal.{itoa}
use ssh_roundrobin.Env.{Env}
use ssh_roundrobin.RoundRobin.{Pool}
use ssh_roundrobin.RoundRobin.Health.{UpstreamStat, stats_snapshot}

-- The pieces of a `fmt.Sprintf`, put together.
unfoldable pub concat : List Text → Text
concat [] = []
concat (piece ∷ pieces) = piece ++ concat pieces

-- "\033[…m"
abbrev pub ansi : Text → Text
ansi sgr = 27 ∷ (codes "[" ++ (sgr ++ codes "m"))

abbrev pub ansi_reset : Text
ansi_reset = ansi (codes "0")

-- Cyan, blue, magenta and white.
abbrev pub upstream_colors : List Text
upstream_colors = ansi (codes "36") ∷ ansi (codes "34") ∷ ansi (codes "35") ∷ ansi (codes "37") ∷ []

unfoldable pub addr_part : ℕ → UpstreamStat → Text
addr_part idx stat = concat (get_or upstream_colors (idx % 4) [] ∷ stat.stat_addr ∷ ansi_reset ∷ [])

unfoldable pub health_part : UpstreamStat → Text
health_part stat =
    if stat.is_up
    then ansi (codes "32") ++ (codes "up" ++ ansi_reset)
    else ansi (codes "31") ++ (codes "down" ++ ansi_reset)

unfoldable pub active_part : UpstreamStat → Text
active_part stat =
    if stat.is_active then ansi (codes "33") ++ (codes "yes" ++ ansi_reset) else codes "no"

unfoldable pub error_part : (Text → Text) → UpstreamStat → Text
error_part quote stat =
    if is_empty stat.error then [] else concat (codes " err=" ∷ quote stat.error ∷ [])

unfoldable pub summary_line : (Text → Text) → ℕ → UpstreamStat → Text
summary_line quote idx stat = concat (
    codes "  - "
    ∷ addr_part idx stat
    ∷ codes " mode="
    ∷ stat.mode
    ∷ codes " health="
    ∷ health_part stat
    ∷ codes " active="
    ∷ active_part stat
    ∷ codes " hits="
    ∷ itoa (pos stat.selected)
    ∷ codes " reconnects="
    ∷ itoa (pos stat.reconnects)
    ∷ codes " checks="
    ∷ itoa (pos stat.checks)
    ∷ error_part quote stat
    ∷ [])

unfoldable pub summary_lines : (Text → Text) → ℕ → List UpstreamStat → List Text
summary_lines quote idx [] = []
summary_lines quote idx (stat ∷ stats) =
    summary_line quote idx stat ∷ summary_lines quote (idx + 1) stats

-- `strings.Join(lines, "\n")`
unfoldable pub join_lines : List Text → Text
join_lines [] = []
join_lines (line ∷ []) = line
join_lines (line ∷ next ∷ lines) = line ++ 10 ∷ join_lines (next ∷ lines)

unfoldable pub stats_summary : {W : Type 0} → Env W → Pool W → Text
stats_summary env p = elim (summary_lines env.quote 0 (stats_snapshot p)) [
  | [] ↦ codes "\n  - no upstreams"
  | line ∷ lines ↦ 10 ∷ join_lines (line ∷ lines)
]
