-- ===== src/Scheduler/Links.antt =====
-- What the writes of `_scheduler_enqueue_task` and `_scheduler_dequeue_task` leave in the links.
use visual_os.Base.{ℕ, ◌≡◌, ◌≢◌, refl, ◌==◌, if◌then◌else◌, arith}
use visual_os.Scheduler.State.{Scheduler}
use visual_os.Scheduler.{link_first, link_last, unlink}

-- Everything but the links is as before.
pub record SameBut (s t : Scheduler) : Type 0 where
  pub context : (p : ℕ) → (t.nodes p).context ≡ (s.nodes p).context
  pub queue_num : (p : ℕ) → (t.nodes p).queue_num ≡ (s.nodes p).queue_num
  pub live : t.live ≡ s.live
  pub tid_accumulator : t.tid_accumulator ≡ s.tid_accumulator
  pub ticks_table : t.ticks_table ≡ s.ticks_table
  pub timer_count : t.timer_count ≡ s.timer_count

pub link_last-next :
    (s : Scheduler) (first node p : ℕ)
    → first ≢ node
    → (s.nodes first).previous ≢ node
    → ((link_last first node s).nodes p).next ≡ (
        if p == (s.nodes first).previous
        then node
        else if p == node
        then first
        else (s.nodes p).next)
unfolding link_last
link_last-next s first node p a b = ground arith

pub link_last-previous :
    (s : Scheduler) (first node p : ℕ)
    → first ≢ node
    → (s.nodes first).previous ≢ node
    → ((link_last first node s).nodes p).previous ≡ (
        if p == first
        then node
        else if p == node
        then (s.nodes first).previous
        else (s.nodes p).previous)
unfolding link_last
link_last-previous s first node p a b = ground arith

pub link_last-SameBut : (s : Scheduler) (first node : ℕ) → SameBut s (link_last first node s)
unfolding link_last
link_last-SameBut s first node = record {
  context = λ p. ground arith;
  queue_num = λ p. ground arith;
  live = refl;
  tid_accumulator = refl;
  ticks_table = refl;
  timer_count = refl;
}

pub link_first-next :
    (s : Scheduler) (i node p : ℕ)
    → ((link_first i node s).nodes p).next ≡ (if p == node then node else (s.nodes p).next)
unfolding link_first
link_first-next s i node p = ground arith

pub link_first-previous :
    (s : Scheduler) (i node p : ℕ)
    → ((link_first i node s).nodes p).previous ≡ (if p == node then node else (s.nodes p).previous)
unfolding link_first
link_first-previous s i node p = ground arith

pub link_first-SameBut : (s : Scheduler) (i node : ℕ) → SameBut s (link_first i node s)
unfolding link_first
link_first-SameBut s i node = record {
  context = λ p. ground arith;
  queue_num = λ p. ground arith;
  live = refl;
  tid_accumulator = refl;
  ticks_table = refl;
  timer_count = refl;
}

pub unlink-next :
    (s : Scheduler) (node p : ℕ)
    → (s.nodes node).next ≢ node
    → ((unlink node s).nodes p).next
      ≡ (if p == (s.nodes node).previous then (s.nodes node).next else (s.nodes p).next)
unfolding unlink
unlink-next s node p a = ground arith

pub unlink-previous :
    (s : Scheduler) (node p : ℕ)
    → (s.nodes node).next ≢ node
    → ((unlink node s).nodes p).previous
      ≡ (if p == (s.nodes node).next then (s.nodes node).previous else (s.nodes p).previous)
unfolding unlink
unlink-previous s node p a = ground arith

pub unlink-SameBut : (s : Scheduler) (node : ℕ) → SameBut s (unlink node s)
unfolding unlink
unlink-SameBut s node = record {
  context = λ p. ground arith;
  queue_num = λ p. ground arith;
  live = refl;
  tid_accumulator = refl;
  ticks_table = refl;
  timer_count = refl;
}
