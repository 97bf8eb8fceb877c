-- ===== src/Net/Dns/Tests.antt =====
-- Runs of the DNS client, and the theorems about it at concrete inputs.
use nos.Prelude.{ℕ, ◌≡◌, refl, List, [], ◌∷◌, some, true, false, Succeeds}
use nos.Net.{be16}
use nos.Net.Dns.{Dnsq, dns_input, dns_skip_name, questions, answers, word_at, labels, dns_query}
use nos.Net.Dns.Safe.{dns_input-Succeeds}
use nos.Net.Dns.Name.{skip_name-labels}

abbrev asked : Dnsq
asked = record { busy = true; done = false; id = 0x0102; port = 0xC102; addr = 0 }

-- An answer to the question for "a.bc", with one A record that points back to the name.
abbrev answer : List ℕ
answer =
    1 ∷ 2 ∷ 0x80 ∷ 0 ∷ 0 ∷ 1 ∷ 0 ∷ 1 ∷ 0 ∷ 0 ∷ 0 ∷ 0 ∷ 1 ∷ 97 ∷ 2 ∷ 98 ∷ 99 ∷ 0 ∷ 0 ∷ 1 ∷ 0 ∷ 1
    ∷ 0xC0 ∷ 12 ∷ 0 ∷ 1 ∷ 0 ∷ 1 ∷ 0 ∷ 0 ∷ 0 ∷ 9 ∷ 0 ∷ 4 ∷ 10 ∷ 0 ∷ 2 ∷ 2 ∷ []

answer_run : dns_input asked answer ≡ some (record asked { done = true; addr = 0x0202000A })
unfolding dns_input be16 questions answers word_at dns_skip_name
answer_run = refl

query_run :
    dns_query (97 ∷ 46 ∷ 98 ∷ 99 ∷ []) 0x0102
    ≡ some (
        1 ∷ 2 ∷ 1 ∷ 0 ∷ 0 ∷ 1 ∷ 0 ∷ 0 ∷ 0 ∷ 0 ∷ 0 ∷ 0 ∷ 1 ∷ 97 ∷ 2 ∷ 98 ∷ 99 ∷ 0 ∷ 0 ∷ 1 ∷ 0 ∷ 1
        ∷ [])
unfolding dns_query
query_run = refl

skip_name-labels_test : dns_skip_name answer 12 ≡ some 18
unfolding labels
skip_name-labels_test =
    skip_name-labels (97 ∷ 46 ∷ 98 ∷ 99 ∷ []) (1 ∷ 97 ∷ 2 ∷ 98 ∷ 99 ∷ []) answer
      (0 ∷ 1 ∷ 0 ∷ 1 ∷ 0xC0 ∷ 12 ∷ 0 ∷ 1 ∷ 0 ∷ 1 ∷ 0 ∷ 0 ∷ 0 ∷ 9 ∷ 0 ∷ 4 ∷ 10 ∷ 0 ∷ 2 ∷ 2 ∷ []) 12
      refl refl

dns_input-Succeeds_example : Succeeds (dns_input asked answer)
dns_input-Succeeds_example = dns_input-Succeeds asked answer
