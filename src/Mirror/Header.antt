-- ===== src/Mirror/Header.antt =====
-- internal/mirror/bundleformat.go: the object format in the header of a bundle.
use gitd.Prelude.{
  Bool, not, List, [], ◌∷◌, Bytes, codes, Option, none, some, if◌then◌else◌, is_nil, has_prefix,
  str_eq,
}
use gitd.Hooks.{scan_lines}

pub data Format : Type 0 where
  sha1 sha256 : Format

-- the scan of the capabilities; the Boolean says whether the scanner stopped with an error
unfoldable pub capabilities : Bool → List Bytes → Option Format
capabilities failed [] = if failed then none else some sha1
capabilities failed (line ∷ lines) =
    let rest = capabilities failed lines in
    if is_nil line
    then (if failed then none else some sha1)
    else if not (has_prefix line (codes "@"))
    then rest
    else if str_eq line (codes "@object-format=sha256")
    then some sha256
    else if str_eq line (codes "@object-format=sha1")
    then some sha1
    else if has_prefix line (codes "@object-format=")
    then none
    else rest

abbrev header_format : Bool → List Bytes → Option Format
header_format failed [] = none
header_format failed (first ∷ lines) =
    if str_eq first (codes "# v2 git bundle")
    then some sha1
    else if str_eq first (codes "# v3 git bundle")
    then capabilities failed lines
    else none

-- bundleObjectFormat of the bytes of the file; `none` is an error
unfoldable pub bundle_object_format : Bytes → Option Format
bundle_object_format text = header_format (scan_lines text).failed (scan_lines text).lines
