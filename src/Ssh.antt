-- ===== src/Ssh.antt =====
-- `Pandora_Ssh_Client` (ssh/pandora_ssh_client.cc): a session, and one file sent over it. libssh2 and
-- the sockets are parameters.
use pandora_agent_win.Base.Int.{ℤ, pos, negsuc, ltb_ℤ}
use pandora_agent_win.Base.{
  ℕ, ◌^◌, ◌%◌, ◌-◌, Bool, true, false, ◌&&◌, Option, none, some, if◌then◌else◌, not,
}
use pandora_agent_win.Text.{Str}

-- What becomes of the socket and of the session that is started on it.
pub data Opening : Type 0 where
  no_socket not_resolved not_connected not_started : Opening
  started : Opening

-- `newConnection`: whether there is a session, and the code. `SOCKET_ERROR` is -1.
unfoldable pub new_connection : Opening → (session : Bool) → Bool × ℤ
new_connection opening true = (true, pos 15)
new_connection no_socket false = (false, negsuc 0)
new_connection not_resolved false = (false, pos 16)
new_connection not_connected false = (false, pos 17)
new_connection not_started false = (false, pos 18)
new_connection started false = (true, pos 0)

-- `connectWithPublicKey`; `accepted`: the server takes the key.
unfoldable pub connect_with_public_key : Opening → (accepted session : Bool) → Bool × ℤ
connect_with_public_key opening accepted session =
    let (session', rc) = new_connection opening session in
    if session' && not accepted then (false, pos 12) else (session', pos 0)

-- A number as a `size_t`, which has 32 bits.
unfoldable pub to_size_t : ℤ → ℕ
to_size_t (pos n) = n % 2 ^ 32
to_size_t (negsuc n) = 2 ^ 32 - 1 - n % 2 ^ 32

-- The end of `scpFileFilename`, from what `libssh2_channel_write` returns: `sent < 0`, for `sent` a
-- `size_t`.
unfoldable pub scp_written : ℤ → ℤ
unfolding to_size_t
scp_written result = if ltb_ℤ (pos (to_size_t result)) (pos 0) then pos 21 else pos 0

-- How `scpFileFilename` ends: with a code, or with `Channel_Error`.
pub data ScpEnd : Type 0 where
  scp_code : ℤ → ScpEnd
  channel_error : ScpEnd

abbrev channel_end : Option ℤ → ScpEnd
channel_end none = channel_error
channel_end (some result) = scp_code (scp_written result)

-- `scpFileFilename` of a file with this text, if it is there. `channel`: no channel can be opened for
-- the text, or what writing to it returns.
unfoldable pub scp_file_filename : (Str → Option ℤ) → (session : Bool) → Option Str → ScpEnd
unfolding scp_written
scp_file_filename channel false text = scp_code (pos 19)
scp_file_filename channel true none = scp_code (pos 20)
scp_file_filename channel true (some text) = channel_end (channel text)
