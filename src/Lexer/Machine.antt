-- ===== src/Lexer/Machine.antt =====
-- The state of the scanner in lexer/lexer.go and its moves: `New`, `Reset`, `advance`, `peek`,
-- and the assignments that end each scanning loop.
use lugo.Base.{ℕ, ◌+◌, Bool, ◌&&◌, Bytes, length, get_or, ltb, leb, ◌==◌, if◌then◌else◌, u32}

-- The field `length` of the source is `size` here.
pub record Lexer : Type 0 where
  pub source : Bytes
  pub size : ℕ
  pub cursor : ℕ
  pub read : ℕ
  pub ch : ℕ

unfoldable pub advance : Lexer → Lexer
advance l =
    if ltb l.read (length l.source)
    then record l { ch = get_or l.source l.read 0; cursor = u32 l.read; read = u32 (l.read + 1) }
    else record l { ch = 0; cursor = l.read }

unfoldable pub peek : Lexer → ℕ
peek l = if ltb l.read (length l.source) then get_or l.source l.read 0 else 0

-- A byte order mark at the start is skipped.
unfoldable pub has_bom : Bytes → Bool
has_bom src =
    leb 3 (length src) && get_or src 0 0 == 0xEF && get_or src 1 0 == 0xBB && get_or src 2 0 == 0xBF

unfoldable pub reset : Lexer → Bytes → Lexer
reset l src =
    let cleared : Lexer = record {
      source = src;
      size = u32 (length src);
      cursor = 0;
      read = 0;
      ch = 0;
    } in
    advance (if has_bom src then record cleared { read = 3 } else cleared)

unfoldable pub new : Bytes → Lexer
new src = reset (record { source = src; size = 0; cursor = 0; read = 0; ch = 0 }) src

-- `l.cursor = uint32(i)` and what follows it in `skipWhitespace`, `readIdent`, `readString` and
-- `readBacktickString`.
unfoldable pub seek : Lexer → ℕ → Lexer
seek l i =
    if ltb i (length l.source)
    then record l { cursor = u32 i; ch = get_or l.source i 0; read = u32 (i + 1) }
    else record l { cursor = u32 i; ch = 0; read = u32 i }
