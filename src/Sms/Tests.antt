-- ===== src/Sms/Tests.antt =====
-- The tables of tests/check_sms.c, and the theorems at an input.
use monitoringplug.Base.{
  Bool, true, some, none, List, [], ◌∷◌, ◌≡◌, refl, String, Bytes, codes, ◌&&◌,
}
use monitoringplug.Text.{str_eq, hex_byte}
use monitoringplug.Sms.{
  encode_number, encode_text, encode_pdu, encode_chars, finish_text, empty_packer,
}
use monitoringplug.Sms.Packing.{Packs, septets, encode_chars-Packs}

-- Every text of a table is encoded as the one beside it.
table : (Bytes → Bytes) → List (String × String) → Bool
table f [] = true
table f ((s, out) ∷ rest) = str_eq (f (codes s)) (codes out) && table f rest

number_table :
    table encode_number (
      ("+49172123456", "919471123254F6")
      ∷ ("1212", "812121")
      ∷ ("+491722270333", "91947122723033")
      ∷ ("+491721234567", "91947112325476")
      ∷ [])
    ≡ true
unfolding table encode_number str_eq
number_table = refl

text_table :
    table encode_text (
      ("Testtext:", "09D4F29C4E2FE3E93A")
      ∷ ("Testtext:€", "0BD4F29C4E2FE3E9BA4D19")
      ∷ ("Re test", "07D232885E9ED301")
      ∷ [])
    ≡ true
unfolding table encode_text hex_byte str_eq
text_table = refl

pdu :
    encode_pdu none (codes "+491721234567") (codes "Testtext:€")
    ≡ codes "0005000C9194711232547600000BD4F29C4E2FE3E9BA4D19"
unfolding encode_pdu hex_byte
pdu = refl

pdu_smsc :
    encode_pdu (some (codes "+491722270333")) (codes "+491721234567") (codes "Testtext:€")
    ≡ codes "079194712272303305000C9194711232547600000BD4F29C4E2FE3E9BA4D19"
unfolding encode_pdu hex_byte
pdu_smsc = refl

encode_chars-Packs_example :
    Packs (septets (codes "a€")) (finish_text (encode_chars (codes "a€") empty_packer))
encode_chars-Packs_example = encode_chars-Packs (codes "a€")
