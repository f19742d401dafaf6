-- ===== src/Tests/Messages.antt =====
-- An actor that waits, one that runs, and the messages that pass.
use phactor.Base.{ℕ, ◌≡◌, refl, false, some, List, [], ◌∷◌}
use phactor.Messaging.{send_local_message, receive_block_resumed, wake, ph_task_create_resume_actor}
use phactor.Messaging.Delivery.{taken, done, then_step, sends, resume-IsAwake, Steps-IsAwake}
use phactor.Messaging.WakeUp.{IsAwake, resumes_of, pending}
use phactor.PhString.{ph_str_create, strncmp_eq, ph_str_eq}
use phactor.System.{System, idle, active, update}
use phactor.System.Machine.{ok, Returns}
use phactor.Task.{Message, SendMessageTask, resume_actor, ph_msg_create, resume_task}
use phactor.Tests.Systems.{letter, object, living, system, pair, pair-IsAwake}

abbrev quiet : System ℕ
quiet = system (pair (living 65 idle []) (living 66 active [])) []

quiet-IsAwake : IsAwake quiet
unfolding ph_str_eq strncmp_eq resumes_of pending
quiet-IsAwake =
    pair-IsAwake (living 65 idle []) (living 66 active []) (object 65) (object 66) [] refl refl refl
      refl refl refl refl refl

abbrev hello : SendMessageTask ℕ
hello = record {
  from_actor_ref = letter 66;
  to_actor_name = letter 65;
  message = 42;
  using_actor_name = false;
}

-- the actor 1 has a message, and is to be resumed
abbrev note : Message ℕ
note = record { from_actor_ref = letter 66; message = 42 }

abbrev ringing : System ℕ
ringing =
    system (pair (living 65 idle (note ∷ [])) (living 66 active [])) (resume_actor (letter 65) ∷ [])

ringing-IsAwake : IsAwake ringing
unfolding ph_str_eq strncmp_eq resumes_of pending
ringing-IsAwake =
    pair-IsAwake (living 65 idle (note ∷ [])) (living 66 active []) (object 65) (object 66)
      (resume_actor (letter 65) ∷ []) refl refl refl refl refl refl refl refl

resume-IsAwake_example :
    (m : Message ℕ) × (rest : List (Message ℕ)) × (note ∷ [] ≡ m ∷ rest)
    × Returns
        (receive_block_resumed 1 (taken 0 [] ringing))
        (λ m' t. (m' ≡ m) × (t.actors 1 ≡ some (living 65 active rest)) × IsAwake t)
unfolding ph_str_eq strncmp_eq
resume-IsAwake_example =
    resume-IsAwake ringing 1 (living 65 idle (note ∷ [])) (letter 65) [] ringing-IsAwake refl refl
      refl

-- after the message is sent
abbrev rung : System ℕ
rung = record quiet {
  actors = update quiet.actors 1 (some (living 65 idle (note ∷ [])));
  threads = update quiet.threads 0 (resume_actor (letter 65) ∷ []);
}

hello_sent : send_local_message 1 hello quiet ≡ ok tt rung
unfolding send_local_message wake ph_task_create_resume_actor resume_task ph_msg_create
    ph_str_create
hello_sent = refl

Steps-IsAwake_example : IsAwake rung
Steps-IsAwake_example =
    Steps-IsAwake quiet rung quiet-IsAwake
      (then_step done (sends 1 (living 65 idle []) hello refl hello_sent))
