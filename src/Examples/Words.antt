-- ===== src/Examples/Words.antt =====
-- One entry of the file with the words, loaded.
use magic_wormhole_rs.Common.{◌≡◌, refl, [], List, some, Bytes, length, replicate, get_or}
use magic_wormhole_rs.Common.Text.{codes}
use magic_wormhole_rs.Core.Json.{string, array, nil, cons, object, Entries, end, entry}
use magic_wormhole_rs.Core.Wordlist.Load.{set_at, last_word, load_pgpwords, load_pgpwords-last_word}

abbrev words : Entries
words =
    entry (codes "0A") (array (cons (string (codes "allow")) (cons (string (codes "Apollo")) nil)))
      end

abbrev blank : List Bytes
blank = replicate 256 []

loaded :
    load_pgpwords (object words)
    ≡ some (set_at 10 (codes "apollo") blank, set_at 10 (codes "allow") blank)
unfolding load_pgpwords
loaded = refl

load_pgpwords-last_word_example :
    (length (set_at 10 (codes "apollo") blank) ≡ 256)
    × (length (set_at 10 (codes "allow") blank) ≡ 256)
    × (get_or (set_at 10 (codes "apollo") blank) 10 [] ≡ last_word 1 10 words [])
    × (get_or (set_at 10 (codes "allow") blank) 10 [] ≡ last_word 0 10 words [])
load_pgpwords-last_word_example =
    load_pgpwords-last_word words (set_at 10 (codes "apollo") blank)
      (set_at 10 (codes "allow") blank) 10 loaded
