-- ===== src/Tests/SafetyTests.antt =====
-- Examples for internal/safetyllm: a cache for two verdicts.
use deep_seek_web_to_api.Prelude.{◌≡◌, refl, false, none, some, List, [], ◌∷◌}
use deep_seek_web_to_api.Safety.Lru.{Verdict, new_lru_cache}
use deep_seek_web_to_api.Safety.Lru.Spec.{Call, gets, sets, purges, answers, spec_answers}
use deep_seek_web_to_api.Safety.Lru.Refines.{new_lru_cache-answers}

abbrev harmless : Verdict
harmless = record { violation = false; cached = false; latency_ms = 7; fail_open = false }

-- The second key is used least when the third one comes.
abbrev three_keys : List Call
three_keys =
    sets "a" harmless 9
    ∷ sets "b" harmless 0
    ∷ gets "a" 5
    ∷ sets "c" harmless 0
    ∷ gets "b" 6
    ∷ gets "a" 8
    ∷ gets "a" 10
    ∷ purges
    ∷ gets "c" 11
    ∷ []

second_evicted :
    answers (new_lru_cache 2) three_keys ≡ some harmless ∷ none ∷ some harmless ∷ none ∷ none ∷ []
unfolding deep_seek_web_to_api.Safety.Lru.get deep_seek_web_to_api.Safety.Lru.set new_lru_cache
    deep_seek_web_to_api.Safety.Lru.evict deep_seek_web_to_api.Safety.Lru.value_of
    deep_seek_web_to_api.Safety.Lru.remove deep_seek_web_to_api.Safety.Lru.back
    deep_seek_web_to_api.Safety.Lru.purge
second_evicted = refl

new_lru_cache-answers_example : answers (new_lru_cache 2) three_keys ≡ spec_answers 2 [] three_keys
new_lru_cache-answers_example = new_lru_cache-answers 2 three_keys
