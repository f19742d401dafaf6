-- ===== src/Tests/Sending.antt =====
-- An actor that sends a string to another by its name.
use phactor.ActorRef.{ActorArg, ph_valid_actor_arg}
use phactor.Base.{◌≡◌, refl, true, false, some, [], ◌∷◌, arith}
use phactor.HashTable.{home, key_eq, ph_hashtable_search, ph_hashtable_search_direct}
use phactor.Messaging.{send_message}
use phactor.PhString.{ph_str_create, ph_str_eq, strncmp_eq}
use phactor.Send.{sent, send}
use phactor.Send.Delivered.{mailbox_of, send-send_message}
use phactor.Supervisor.Methods.{resolve}
use phactor.System.{Actor, System, idle, active}
use phactor.System.Machine.{ok, Returns}
use phactor.Task.{SendMessageTask, send_message as send_task, ph_msg_create}
use phactor.Tests.Strings.{types, php, ab}
use phactor.Tests.Systems.{platform, letter, object, living, system, pair}
use phactor.Value.{Zval, Entry, ph_entry_convert_from_zval}

abbrev sender : Actor (Entry types)
sender = living 66 active []

abbrev recipient : Actor (Entry types)
recipient = record (living 65 idle []) { name = some (letter 97) }

abbrev connected : System (Entry types)
connected = record (system (pair sender recipient) []) {
  actors_by_ref = record {
    values = record { key = some (letter 66); value = 1; hash = 1; variance = 0 } ∷ [];
    size = 1;
    used = 1;
  };
  actors_by_name = record {
    values = record { key = some (letter 97); value = 2; hash = 1; variance = 0 } ∷ [];
    size = 1;
    used = 1;
  };
}

sender_found : ph_hashtable_search platform.zend_hash_func connected.actors_by_ref (letter 66) ≡ 1
unfolding ph_hashtable_search ph_hashtable_search_direct home key_eq ph_str_eq strncmp_eq
sender_found = refl

recipient_found : resolve platform (true, letter 97) connected ≡ 2
unfolding resolve ph_hashtable_search ph_hashtable_search_direct home key_eq ph_str_eq strncmp_eq
recipient_found = refl

send-send_message_example :
    (task : SendMessageTask (Entry types)) × (t : System (Entry types)) × (send platform php
        (letter 66)
        (ActorArg.string (97 ∷ []))
        (Zval.string (97 ∷ 98 ∷ []))
        connected
      ≡ ok sent t)
    × (t.threads 1 ≡ send_task task ∷ [])
    × Returns (send_message platform task t) (λ _ u.
      (mailbox_of (u.actors 2) ≡ ph_msg_create (ph_str_create (66 ∷ []) 1) (Entry.string ab) ∷ [])
      × (u.actors_by_ref_lock ≡ false))
unfolding ph_valid_actor_arg ph_str_create ph_entry_convert_from_zval
send-send_message_example =
    send-send_message platform php (letter 66) (ActorArg.string (97 ∷ [])) true (letter 97)
      (Zval.string (97 ∷ 98 ∷ [])) (Entry.string ab) 1 2 sender recipient (object 66) connected refl
      refl sender_found (λ e. omega arith) refl refl refl recipient_found (λ e. omega arith) refl
      (λ i. (object 65, refl))
