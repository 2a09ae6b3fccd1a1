-- ===== src/Tests/Opened.antt =====
-- The functions of the earlier engine's users and sessions, opened for the tests that run them.
use dift_backend_auth.Legacy.Engine.Tables
use dift_backend_auth.Legacy.Engine.Users
use dift_backend_auth.Legacy.Engine.Sessions
use dift_backend_auth.Legacy.Engine.Trail
use dift_backend_auth.Legacy.Engine.Links
use dift_backend_auth.Legacy.Engine.Tokens
use dift_backend_auth.Legacy.Engine.Secrets
use dift_backend_auth.Legacy.Engine.Policy
use dift_backend_auth.Legacy.Engine.Service
use dift_backend_auth.Legacy.Engine.Login
use dift_backend_auth.Legacy.Engine.Access
use dift_backend_auth.Legacy.Engine.Handlers
use dift_backend_auth.Tests.Program

unfoldable pub engine : Unit {0}
unfolding Program.program Tables.query Tables.write_users Tables.write_sessions Tables.write_oauths
    Tables.write_audits Users.create Users.get_by_id Users.get_by_email Users.get_by_phone
    Users.get_by_identifier Users.update Users.incr_failed_login Users.reset_failed_login
    Users.lock_account Users.soft_delete Sessions.create Sessions.get_by_id
    Sessions.get_by_refresh_token Sessions.list_by_user Sessions.revoke Sessions.revoke_all
    Sessions.touch Sessions.count_active Sessions.cleanup_expired Trail.log Links.find_link
    Links.create Links.get_by_provider Tokens.generate_access_token Tokens.generate_refresh_token
    Tokens.generate_token_pair Tokens.parse_token Secrets.hex_upper Secrets.generate_backup_codes
    Secrets.without_line_ends Secrets.decode_padded Secrets.encrypt Secrets.decrypt Policy.seen_in
    Policy.validate_password_strength Service.register Service.issue_tokens Login.failed_login
    Login.without_code Login.mfa_gate Login.login_as Login.login Access.oauth_login
    Access.refresh_token Access.request_password_reset Access.reset_password Access.enable_mfa
    Access.confirm_mfa Access.disable_mfa Handlers.handle_auth_error Handlers.serve_public
    Handlers.serve_private Handlers.split_space Handlers.jwt_auth Handlers.serve Handlers.serve_all
engine = tt
