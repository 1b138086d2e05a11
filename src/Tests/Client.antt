-- ===== src/Tests/Client.antt =====
-- The theorems on the Bitcoin client, with a retry function and a node whose first answer to the
-- tip height fails.
use staking_indexer.Prelude.{ℕ, zero, suc, ◌<◌, ℤ, pos, negsuc, [], ◌∷◌, ◌++◌, ◌≡◌, refl, arith}
use staking_indexer.Prelude.Result.{Error, Result, ok, err, panic, external}
use staking_indexer.Wire.{Hash, MsgBlock}
use staking_indexer.Wire.Blocks.{new_indexed_block_from_msg_block}
use staking_indexer.Scanner.Poller.{BtcPoller, bootstrap}
use staking_indexer.Scanner.Poller.Commits.{confirmed_stream}
use staking_indexer.BtcClient.{BtcClient, Retry, RetryLaws, Answers, IsFailed, scanner_client}
use staking_indexer.BtcClient.Retried.{Has}
use staking_indexer.BtcClient.Bootstraps.{indexed, bootstrap-Serves}
use staking_indexer.BtcClient.Headers.{HeaderSource}
use staking_indexer.Tests.Lifecycle.{linked_codec, linked_hash, linked_block, scanner_3}

module _ {A : Type 0} where
  abbrev next : ℕ → Result A → Result A → Result A
  next n (ok a) later = ok a
  next n panic later = panic
  next zero (err e) later = err e
  next (suc n) (err e) later = later

  abbrev do_with_data : ℕ → (ℕ → Result A) → Result A
  do_with_data zero call = panic
  do_with_data (suc n) call = next n (call 0) (do_with_data n (λ m. call (suc m)))

  do_with_data-first :
      (n j : ℕ) (call : ℕ → Result A) (a : A)
      → j < n
      → call j ≡ ok a
      → ((m : ℕ) → m < j → IsFailed (call m))
      → do_with_data n call ≡ ok a
  do_with_data-first zero j call a l h before = absurd (omega (arith, l))
  do_with_data-first (suc n) zero call a l h before = rw h refl
  do_with_data-first (suc zero) (suc j) call a l h before = absurd (omega (arith, l))
  do_with_data-first (suc (suc n)) (suc j) call a l h before =
      let (e, q) = before 0 (omega arith) in
      rw q (
        do_with_data-first (suc n) j (λ m. call (suc m)) a (omega (arith, l)) h
          (λ m i. before (suc m) (omega (arith, i))))

  do_with_data-last :
      (n : ℕ) (call : ℕ → Result A) (e : Error)
      → ((m : ℕ) → m < suc n → IsFailed (call m))
      → call n ≡ err e
      → do_with_data (suc n) call ≡ err e
  do_with_data-last zero call e f h = rw h refl
  do_with_data-last (suc n) call e f h =
      let (x, q) = f 0 (omega arith) in
      rw q (do_with_data-last n (λ m. call (suc m)) e (λ m i. f (suc m) (omega (arith, i))) h)

abbrev sample_retry : Retry
sample_retry = record { do_with_data = do_with_data }

pub sample_retry-RetryLaws : RetryLaws sample_retry
sample_retry-RetryLaws = record {
  first_success = λ n call a h. do_with_data-first n h.attempt call a h.in_time h.answer h.before;
  last_error = λ n call e f h. do_with_data-last n call e f h;
}

abbrev pub number_of : Hash → ℕ
number_of [] = 0
number_of (n ∷ h) = n

abbrev pub node_block : ℕ → MsgBlock
node_block n = record { header = (linked_block n).header; transactions = [] }

-- The tip height 5 at the second attempt.
abbrev count : ℕ → Result ℤ
count zero = err (external 9)
count (suc n) = ok (pos 5)

abbrev hash_at : ℤ → ℕ → Result Hash
hash_at (pos h) n = ok (linked_hash h)
hash_at (negsuc h) n = err (external 9)

abbrev pub sample_client : BtcClient
sample_client = record {
  retry = sample_retry;
  client = record {
    get_block_count = count;
    get_block_hash = hash_at;
    get_block = λ h n. ok (node_block (number_of h));
    get_block_header = λ h n. ok (linked_block (number_of h)).header;
  };
  max_retry_times = 5;
}

at_once : {A : Type 0} (call : ℕ → Result A) (a : A) → call 0 ≡ ok a → Answers 5 call a
at_once call a h = record {
  attempt = 0;
  in_time = omega arith;
  answer = h;
  before = λ m l. absurd (omega (arith, l));
}

pub sample_client-Has : (n : ℕ) → number_of (linked_hash n) ≡ n → Has sample_client n (node_block n)
sample_client-Has n e = record {
  hash = linked_hash n;
  hashed = at_once _ _ refl;
  got = at_once _ _ (rw e refl);
}

pub count-Answers : Answers 5 count (pos 5)
count-Answers = record {
  attempt = 1;
  in_time = omega arith;
  answer = refl;
  before = λ m l. let e : m ≡ 0 = omega (arith, l) in rw e (external 9, refl);
}

bootstrap-Serves_example :
    (t : BtcPoller) × (bootstrap linked_codec (scanner_client sample_client) 3 scanner_3.poller
      ≡ (ok tt, t))
    × (confirmed_stream t.sent ++ t.unconfirmed_block_cache.blocks
        ≡ confirmed_stream scanner_3.poller.sent
          ++ indexed 3 (node_block 3 ∷ node_block 4 ∷ node_block 5 ∷ []))
unfolding new_indexed_block_from_msg_block
bootstrap-Serves_example =
    bootstrap-Serves sample_client sample_retry-RetryLaws linked_codec 2 3 (node_block 3)
      (node_block 4 ∷ node_block 5 ∷ []) scanner_3.poller refl (omega arith) count-Answers
      (omega arith)
      (sample_client-Has 3 refl, (sample_client-Has 4 refl, (sample_client-Has 5 refl, tt)))
      (tt, (refl, (refl, tt)))

abbrev headers : HeaderSource
headers = record {
  get_block_header_by_height = λ h. ok (linked_block h).header;
  header_bytes = λ h. h.nonce ∷ [];
}
