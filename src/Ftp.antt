-- ===== src/Ftp.antt =====
-- `Pandora_Ftp_Client` (ftp/pandora_ftp_client.cc): the request that it makes of curl, and what it
-- makes of the answer.
use pandora_agent_win.Base.Int.{ℤ, pos}
use pandora_agent_win.Base.{◌++◌}
use pandora_agent_win.File.{file_name}
use pandora_agent_win.Text.{Str, bytes}

pub data CurlCode : Type 0 where
  curle_ok curle_ftp_quote_error curle_couldnt_connect curle_ftp_access_denied : CurlCode
  other_code : CurlCode

-- The address of `ftpFileFilename`. The port that `connect` is given is not in it.
unfoldable pub ftp_url : (username password host filepath : Str) → Str
ftp_url username password host filepath =
    bytes "ftp://"
    ++ (username
        ++ (bytes ":" ++ (password ++ (bytes "@" ++ (host ++ (bytes "/" ++ file_name filepath))))))

-- The `switch` over the answer. Where it breaks, nothing is returned: `off_end` is what the caller gets.
unfoldable pub ftp_code : (off_end : ℤ) → CurlCode → ℤ
ftp_code off_end curle_ok = off_end
ftp_code off_end curle_ftp_quote_error = off_end
ftp_code off_end curle_couldnt_connect = pos 13
ftp_code off_end curle_ftp_access_denied = pos 12
ftp_code off_end other_code = pos 14
