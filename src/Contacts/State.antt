-- ===== src/Contacts/State.antt =====
-- contacts/src/TTContactsState.hpp, and the `switch` statements over a contact's state of
-- contacts/src/TTContactsHandler.cpp: `none` where the code logs a failed change.
use terminal_teams.Prelude.{Bool, Option, none, not, some, ℕ, ◌==◌, ◌||◌}

pub data State : Type 0 where
  active inactive selected_active selected_inactive unread_msg_active unread_msg_inactive : State
  pending_msg_inactive selected_pending_msg_inactive : State

-- `static_cast<size_t>(state)`.
unfoldable pub state_code : State → ℕ
state_code active = 0
state_code inactive = 1
state_code selected_active = 2
state_code selected_inactive = 3
state_code unread_msg_active = 4
state_code unread_msg_inactive = 5
state_code pending_msg_inactive = 6
state_code selected_pending_msg_inactive = 7

unfoldable pub same_state : State → State → Bool
unfolding state_code
same_state a b = state_code a == state_code b

unfoldable pub is_active : State → Bool
unfolding same_state
is_active s = same_state s active || same_state s selected_active || same_state s unread_msg_active

unfoldable pub is_inactive : State → Bool
unfolding is_active
is_inactive s = not (is_active s)

unfoldable pub is_selected : State → Bool
unfolding same_state
is_selected s =
    same_state s selected_active
    || same_state s selected_inactive
    || same_state s selected_pending_msg_inactive

unfoldable pub on_send : State → Option State
on_send selected_active = some selected_active
on_send selected_inactive = some selected_pending_msg_inactive
on_send selected_pending_msg_inactive = some selected_pending_msg_inactive
on_send _ = none

unfoldable pub on_receive : State → Option State
on_receive active = some unread_msg_active
on_receive selected_active = some selected_active
on_receive unread_msg_active = some unread_msg_active
on_receive _ = none

unfoldable pub on_activate : State → Option State
on_activate active = some active
on_activate inactive = some active
on_activate selected_active = some selected_active
on_activate selected_inactive = some selected_active
on_activate unread_msg_active = some unread_msg_active
on_activate unread_msg_inactive = some unread_msg_active
on_activate pending_msg_inactive = some active
on_activate selected_pending_msg_inactive = some selected_active

unfoldable pub on_deactivate : State → Option State
on_deactivate active = some inactive
on_deactivate inactive = some inactive
on_deactivate selected_active = some selected_inactive
on_deactivate selected_inactive = some selected_inactive
on_deactivate unread_msg_active = some unread_msg_inactive
on_deactivate unread_msg_inactive = some unread_msg_inactive
on_deactivate pending_msg_inactive = some pending_msg_inactive
on_deactivate selected_pending_msg_inactive = some selected_pending_msg_inactive

unfoldable pub on_unselect : State → Option State
on_unselect selected_active = some active
on_unselect selected_inactive = some inactive
on_unselect selected_pending_msg_inactive = some pending_msg_inactive
on_unselect _ = none

unfoldable pub on_select : State → Option State
on_select active = some selected_active
on_select inactive = some selected_inactive
on_select unread_msg_active = some selected_active
on_select unread_msg_inactive = some selected_inactive
on_select pending_msg_inactive = some selected_pending_msg_inactive
on_select _ = none
