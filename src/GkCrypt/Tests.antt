-- ===== src/GkCrypt/Tests.antt =====
-- The key stream on small inputs, and the witnesses of its properties.
use vitaki_vitarps.Base.{
  ℕ, take, map, ◌*◌, ◌%◌, ◌^◌, ◌≡◌, refl, true, false, none, some, List, [], ◌∷◌, arith, length,
  replicate, length-replicate, ok,
}
use vitaki_vitarps.GkCrypt.Counter.{counter_add, value}
use vitaki_vitarps.GkCrypt.Stream.{Aes, GkCrypt, gen_key_stream}
use vitaki_vitarps.GkCrypt.Ring.{init, get_key_stream}
use vitaki_vitarps.GkCrypt.RingLaws.{IsFilled}
use vitaki_vitarps.GkCrypt.Threads.{Worker, Event, request, wake, scribble, done, run}
use vitaki_vitarps.GkCrypt.Histories.{run-get_key_stream}
use vitaki_vitarps.GkCrypt.Gmac.{
  Library, gmacs, gmac_init, gmac_alone, gen_gmac_key, gmacs-gmac_alone,
}
use vitaki_vitarps.GkCrypt.Cipher.{decrypt, decrypt-decrypt}

-- A cipher that gives the key's length and the lowest byte of the counter.
abbrev aes : Aes
aes = record {
  encrypt = λ key input. length key % 2 ^ 8 ∷ value input % 2 ^ 8 ∷ replicate 14 7;
  works = true;
}

abbrev iv : List ℕ
iv = 255 ∷ 255 ∷ replicate 14 0

carries : counter_add iv 2 ≡ 1 ∷ 0 ∷ 1 ∷ replicate 13 0
unfolding counter_add
carries = refl

abbrev memory : List ℕ
memory = replicate (1 * 2 ^ 12) 0

-- A chunk, half written when a request comes, and finished then.
abbrev events : List Event
events = wake ∷ scribble (replicate (2 ^ 12) 9) ∷ request 16 32 ∷ done ∷ request 48 16 ∷ []

run-get_key_stream_example :
    let ring = init 1 memory (replicate 16 3) iv in
    (w : Worker) × (run aes (record { ring = ring; making = none; ended = false }) events ≡ some w)
    × ((get_key_stream aes w.ring 64 32).0 ≡ gen_key_stream aes ring 64 32)
run-get_key_stream_example =
    run-get_key_stream aes (replicate 16 3) iv 1 memory events 64 32 (λ key input. refl) refl
      (omega arith) (omega arith) (length-replicate {A = ℕ} (1 * 2 ^ 12) 0) (omega arith) refl refl
      (omega arith)

abbrev ring : GkCrypt
ring = init 1 memory (replicate 16 3) iv

ring-IsFilled : IsFilled aes ring memory
unfolding init
ring-IsFilled = record {
  is_buf = refl;
  array = length-replicate {A = ℕ} (1 * 2 ^ 12) 0;
  chunks = omega arith;
  some_room = omega arith;
  start_inside = omega arith;
  start_chunks = omega arith;
  populated_in = omega arith;
  populated_chunks = omega arith;
  min_chunks = omega arith;
  min_near = omega arith;
  last_small = omega arith;
  size_small = omega arith;
  filled = λ i h. absurd (omega (arith, h));
}

decrypt-decrypt_example :
    (encrypted : List ℕ) × ((decrypt aes true ring 20 (1 ∷ 2 ∷ 3 ∷ [])).0 ≡ some (ok encrypted))
    × ((decrypt aes true ring 20 encrypted).0 ≡ some (ok (1 ∷ 2 ∷ 3 ∷ [])))
decrypt-decrypt_example =
    decrypt-decrypt aes ring ring memory memory 20 (1 ∷ 2 ∷ 3 ∷ []) ring-IsFilled ring-IsFilled refl
      refl (λ key input. refl) (λ key input. omega arith) refl (omega arith) (omega arith)

-- A hash that gives 32 bytes, and codes that give the key's first byte.
abbrev library : Library
library = record {
  sha256 = λ input. value input % 2 ^ 8 ∷ replicate 31 5;
  tag = λ key iv buf. ok (take 4 key);
}

-- The second position needs a later key, the third the first one again.
abbrev requests : List (ℕ × List ℕ)
requests = (16, 1 ∷ []) ∷ (90016, 2 ∷ []) ∷ (32, 3 ∷ []) ∷ []

gmacs-gmac_alone_example :
    gmacs library (gmac_init library (replicate 16 3) iv) requests
    ≡ some (map (gmac_alone library (gen_gmac_key library 0 (replicate 16 3) iv) iv) requests)
gmacs-gmac_alone_example = gmacs-gmac_alone library (replicate 16 3) iv requests
