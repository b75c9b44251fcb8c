-- ===== src/Initfs/Xbps/Checksum/Tests.antt =====
-- A digest in a list of two lines.
use void_init.Base.{◌≡◌, ◌↔◌, Bytes, codes, ok}
use void_init.Text.Parts.{split}
use void_init.Initfs.Xbps.Checksum.{lines_of, verify_checksum}
use void_init.Initfs.Xbps.Checksum.Laws.{Listed, verify_checksum_iff}

abbrev sums : Bytes
sums = codes "00ff  other.tar.xz\n12ab  xbps.tar.xz\n"

verify_checksum_iff_example :
    (verify_checksum sums (codes "12ab") ≡ ok tt)
    ↔ Listed (codes "12ab") (lines_of (split sums b'\n'))
verify_checksum_iff_example = verify_checksum_iff sums (codes "12ab")
