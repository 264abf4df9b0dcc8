-- ===== src/Programs/Divided.antt =====
-- The waits of a program divide its tasks into batches.
use mathlib.Core.List.Perm
use boost_threadpool.Common.{
  ℕ, zero, suc, perm_cancel_right, ◌≡◌, refl, ap, subst, ◌∙◌, true, false, none, some, List, [],
  ◌∷◌, ◌++◌, Perm,
}
use boost_threadpool.Core.State.{at_most, none_active}
use boost_threadpool.Core.Shutdown.{Call}
use boost_threadpool.System.Steps.{Log}
use boost_threadpool.Programs.Client.{Instruction, schedule_task, resize_to, call, Place}

abbrev pub rev_onto : {A : Type 0} → List A → List A → List A
rev_onto [] ys = ys
rev_onto (x ∷ xs) ys = rev_onto xs (x ∷ ys)

pub rev_onto_twice :
    {A : Type 0} (xs ys zs : List A) → rev_onto (rev_onto xs ys) zs ≡ rev_onto ys (xs ++ zs)
rev_onto_twice [] ys zs = refl
rev_onto_twice (x ∷ xs) ys zs = rev_onto_twice xs (x ∷ ys) zs

module _ {Task : Type 0} where
  -- The tasks between the waits of a program, each batch with its last task first; `current` are those
  -- scheduled since the last wait.
  abbrev pub batches : List (Instruction Task) → (current : List Task) → List (List Task)
  batches [] current = current ∷ []
  batches (schedule_task t ∷ rest) current = batches rest (t ∷ current)
  batches (resize_to n ∷ rest) current = batches rest current
  batches (call Call.waits ∷ rest) current = current ∷ batches rest []
  batches (call Call.clears ∷ rest) current = batches rest current
  batches (call (Call.terminates b) ∷ rest) current = batches rest current

  -- A list of tasks is the batches, the first batch at its end, each in some order.
  abbrev pub InBatches : (latest_first : List (List Task)) → List Task → Type 0
  InBatches [] fs = fs ≡ []
  InBatches (b ∷ bs) fs =
      (gs : List Task) × (others : List Task) × (fs ≡ gs ++ others)
      × Perm b gs
      × InBatches bs others

  -- What is still to come: a batch that is being waited for is whole.
  abbrev pub coming : List (Instruction Task) → List Task → Place → List (List Task)
  coming rest current none = batches rest current
  coming rest current (some (i, at_most false zero)) = current ∷ batches rest []
  coming rest current (some (i, at_most false (suc k))) = batches rest current
  coming rest current (some (i, at_most true k)) = batches rest current
  coming rest current (some (i, none_active)) = batches rest current

module _ {Task : Type 0} where
  pub record Batched (program rest : List (Instruction Task)) (at : Place) (l : Log Task)
      : Type 0 where
    pub past : List (List Task)
    pub current : List Task
    pub divided : batches program [] ≡ rev_onto past (coming rest current at)
    pub past_scheduled : List Task
    pub scheduled : l.scheduled ≡ current ++ past_scheduled
    pub past_finished : List Task
    pub now_finished : List Task
    pub finished : l.finished ≡ now_finished ++ past_finished
    pub as_many : Perm past_scheduled past_finished
    pub in_batches : InBatches past past_finished

  -- Steps that neither accept nor end a task, and leave the program where it was.
  pub quiet-Batched :
      {program rest rest' : List (Instruction Task)} {at at' : Place} {l m : Log Task}
      (b : Batched program rest at l)
      → m.scheduled ≡ l.scheduled
      → m.finished ≡ l.finished
      → coming rest b.current at ≡ coming rest' b.current at'
      → Batched program rest' at' m
  quiet-Batched b s f c = record {
    past = b.past;
    current = b.current;
    divided = b.divided ∙ ap (rev_onto b.past) c;
    past_scheduled = b.past_scheduled;
    scheduled = s ∙ b.scheduled;
    past_finished = b.past_finished;
    now_finished = b.now_finished;
    finished = f ∙ b.finished;
    as_many = b.as_many;
    in_batches = b.in_batches;
  }

  pub schedule-Batched :
      {program rest : List (Instruction Task)} {l : Log Task} (t : Task)
      → Batched program (schedule_task t ∷ rest) none l
      → Batched program rest none (record l { scheduled = t ∷ l.scheduled })
  schedule-Batched t b = record {
    past = b.past;
    current = t ∷ b.current;
    divided = b.divided;
    past_scheduled = b.past_scheduled;
    scheduled = ap (◌∷◌ t) b.scheduled;
    past_finished = b.past_finished;
    now_finished = b.now_finished;
    finished = b.finished;
    as_many = b.as_many;
    in_batches = b.in_batches;
  }

  pub end-Batched :
      {program rest : List (Instruction Task)} {at : Place} {l : Log Task} (t : Task)
      → Batched program rest at l
      → Batched program rest at (record l { finished = t ∷ l.finished })
  end-Batched t b = record {
    past = b.past;
    current = b.current;
    divided = b.divided;
    past_scheduled = b.past_scheduled;
    scheduled = b.scheduled;
    past_finished = b.past_finished;
    now_finished = t ∷ b.now_finished;
    finished = ap (◌∷◌ t) b.finished;
    as_many = b.as_many;
    in_batches = b.in_batches;
  }

  -- When all tasks are finished, those of the current batch are the ones that were finished since the last wait.
  pub whole :
      {program rest : List (Instruction Task)} {at : Place} {l : Log Task}
      (b : Batched program rest at l)
      → Perm l.scheduled l.finished
      → Perm b.current b.now_finished
  whole {l} b all = perm_cancel_right b.past_finished (
      Perm.trans (Perm.append_left b.current (Perm.symm b.as_many)) (
        subst (Perm (b.current ++ b.past_scheduled)) b.finished
          (subst (λ ts. Perm ts l.finished) b.scheduled all)))

  -- All tasks are finished: the current batch is over.
  pub close-Batched :
      {program rest : List (Instruction Task)} {i : ℕ} {l : Log Task}
      → Perm l.scheduled l.finished
      → Batched program rest (some (i, at_most false 0)) l
      → Batched program rest none l
  close-Batched {l} all b = record {
    past = b.current ∷ b.past;
    current = [];
    divided = b.divided;
    past_scheduled = l.scheduled;
    scheduled = refl;
    past_finished = l.finished;
    now_finished = [];
    finished = refl;
    as_many = all;
    in_batches = (b.now_finished, b.past_finished, b.finished, whole b all, b.in_batches);
  }
