-- ===== src/Shell/Tests.antt =====
-- The theorems on the shell, at concrete inputs.
use modglue.Common.{◌*◌, codes, length}
use modglue.Shell.{parse, new_loader}
use modglue.Shell.Parser.{Returns, parse-Returns}

parse-Returns_example :
    Returns (parse (5 * length (codes "  {a | b")) (codes "  {a | b") new_loader)
parse-Returns_example = parse-Returns (codes "  {a | b")
