-- ===== src/Tests/Xml.antt =====
-- The XML reader of eventlog/normal_log.go at concrete inputs.
use windns_logtail.Base.{Text, lit, suc, [], ◌∷◌, ◌++◌, ◌≡◌, refl, length, arith}
use windns_logtail.Eventlog.Xml.{decode_rune, new_reader, read_all}
use windns_logtail.Eventlog.Xml.Escape.{escape, read_all-escape}

abbrev raw : Text
raw = b'<' ∷ 1 ∷ 9 ∷ b'>' ∷ []

-- A control character of two bytes leaves its second byte behind.
stray_byte : read_all 9 256 (new_reader (194 ∷ 128 ∷ b'x' ∷ [])) ≡ lit "\\u0080" ++ 128 ∷ b'x' ∷ []
unfolding read_all decode_rune
stray_byte = refl

read_all-escape_example : read_all (suc (length (escape raw))) 4096 (new_reader raw) ≡ escape raw
read_all-escape_example =
    read_all-escape 4096 raw (omega arith)
      (omega arith, (omega arith, (omega arith, (omega arith, tt))))
