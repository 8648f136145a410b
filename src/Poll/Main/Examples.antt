-- ===== src/Poll/Main/Examples.antt =====
-- main of the poll servers at concrete inputs.
use mathlib.Core.List.Perm
use mathlib.Core.Path.{subst}
use socket_programming_c.Prelude.{ℕ, ◌≡◌, refl, sym, ◌∙◌, [], ◌∷◌, Option, none, some}
use socket_programming_c.Exits.{done, done-injective, Keeps}
use socket_programming_c.Net.Lookup.{found}
use socket_programming_c.Net.Setup.{
  State, Event, bound, listening, try_all, bind_attempt, get_binded_socket, get_listener_socket,
}
use socket_programming_c.Net.Setup.Named.{get_chat_socket}
use socket_programming_c.Net.Setup.Examples.{sockets, start}
use socket_programming_c.Poll.Server2.Ledger.{Works}
use socket_programming_c.Poll.Server2.Examples.{kernel, kernel-Works, blank, polls}
use socket_programming_c.Poll.Main.{
  get_ai_list, get_passive_socket, main_echo, main_chat, Serves, Chats, main_echo-Serves,
  main_chat-Chats,
}

abbrev set_up : State
set_up = record { calls = 4; log = Event.opened 3 ∷ bound 3 ∷ listening 3 ∷ [] }

passive : get_passive_socket sockets kernel blank (found (7 ∷ [])) start ≡ done (3, set_up)
unfolding get_passive_socket get_ai_list get_listener_socket get_binded_socket try_all bind_attempt
passive = refl

passive-Works :
    (fd : ℕ) (st : State)
    → get_passive_socket sockets kernel blank (found (7 ∷ [])) start ≡ done (fd, st)
    → Works kernel fd
passive-Works fd st e =
    subst (λ (p : ℕ × State). Works kernel p.0) (done-injective (sym passive ∙ e)) kernel-Works

main_echo-Serves_example :
    Keeps
      (Serves sockets kernel blank)
      (main_echo sockets kernel blank (found (7 ∷ [])) start polls)
main_echo-Serves_example =
    main_echo-Serves sockets kernel blank (found (7 ∷ [])) start polls (Perm.refl []) passive-Works

abbrev WorksWith : Option ℕ → Type 0
WorksWith none = Unit
WorksWith (some fd) = Works kernel fd

chat : get_chat_socket sockets (found (7 ∷ [])) start ≡ done (some 3, set_up)
unfolding get_chat_socket try_all bind_attempt
chat = refl

chat-Works :
    (fd : ℕ) (st : State)
    → get_chat_socket sockets (found (7 ∷ [])) start ≡ done (some fd, st)
    → Works kernel fd
chat-Works fd st e =
    subst (λ (p : Option ℕ × State). WorksWith p.0) (done-injective (sym chat ∙ e)) kernel-Works

main_chat-Chats_example :
    Keeps (Chats sockets kernel blank) (main_chat sockets kernel blank (found (7 ∷ [])) start polls)
main_chat-Chats_example =
    main_chat-Chats sockets kernel blank (found (7 ∷ [])) start polls (Perm.refl []) chat-Works
