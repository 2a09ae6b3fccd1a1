-- ===== src/Tests/Program.antt =====
-- Every function of the model, opened for the tests that run it.
use dift_backend_auth.Store
use dift_backend_auth.Encoding
use dift_backend_auth.Encoding.Base64
use dift_backend_auth.Encoding.Reading
use dift_backend_auth.Base.Words
use dift_backend_auth.Base.Int
use dift_backend_auth.Base.Ascii
use dift_backend_auth.Base
use dift_backend_auth.Crypto
use dift_backend_auth.Repository.Users
use dift_backend_auth.Repository.Devices
use dift_backend_auth.Repository.Sessions
use dift_backend_auth.Repository.Challenges
use dift_backend_auth.Repository.Audits
use dift_backend_auth.Audit
use dift_backend_auth.Token
use dift_backend_auth.Device
use dift_backend_auth.Drift
use dift_backend_auth.Biometric
use dift_backend_auth.Auth
use dift_backend_auth.Auth.Access
use dift_backend_auth.Middleware
use dift_backend_auth.Middleware.RateLimiter
use dift_backend_auth.Http.Auth as HttpAuth
use dift_backend_auth.Http.Biometric as HttpBiometric
use dift_backend_auth.Http.Devices as HttpDevices
use dift_backend_auth.Http.Server
use dift_backend_auth.AccessControl.Tables
use dift_backend_auth.AccessControl.Service
use dift_backend_auth.AccessControl.Router
use dift_backend_auth.Verification
use dift_backend_auth.Verification.Handlers
use dift_backend_auth.Account
use dift_backend_auth.Account.Service as AccountService
use dift_backend_auth.Account.Emails
use dift_backend_auth.Account.Handlers as AccountHandlers
use dift_backend_auth.Legacy.Passwords
use dift_backend_auth.Legacy.Codes
use dift_backend_auth.Legacy.Keys
use dift_backend_auth.Token.Signing
use dift_backend_auth.Middleware.RateLimiter.Window
use dift_backend_auth.Tests.Codec
use dift_backend_auth.Tests.Samples
use dift_backend_auth.Tests.OpenTokens

unfoldable pub program : Unit {0}
unfolding Store.get Store.put Store.update_all Store.delete_where Store.select Store.find
    Encoding.decimal_on Encoding.decimal Encoding.signed_decimal Encoding.hex_encode Encoding.split
    Base64.encode Base64.decode Reading.read_decimal Words.signed64 Words.wrap64 Int.◌+ℤ◌ Int.◌-ℤ◌
    Int.◌*ℤ◌ Base.text_eq Crypto.random_bytes Crypto.random_base64_url Crypto.random_hex
    Crypto.secure_hex Crypto.hash_password Crypto.verify_parts Crypto.verify_password
    Crypto.hmac_challenge Crypto.verify_hmac_challenge Crypto.hash_token Crypto.hash_fingerprint
    Crypto.hash_refresh_token Crypto.parse_key Crypto.parse_ecdsa_public_key
    Crypto.parse_rsa_public_key Crypto.verify_ecdsa_signature Crypto.verify_rsa_signature
    Crypto.verify_signature_for_algo Crypto.validate_public_key_format Crypto.print_params
    Crypto.encode_hash Crypto.challenge_message Crypto.build_signed_payload Users.find_by_id
    Users.find_by_identifier Users.store Users.update Devices.get_by_id Devices.list_by_user
    Devices.store Devices.update Sessions.get_by_id Sessions.store Sessions.update
    Sessions.revoke_family Sessions.revoke_all_by_user Challenges.store Challenges.get
    Challenges.update Challenges.delete_expired Audits.paginate Audits.of_user Audits.store
    Audits.get_by_user Audits.get_all Audit.log Audit.audit Audit.get_logs Audit.get_all_logs
    Token.signature Token.sign Token.verify_parts Token.verify Token.issue_token_pair
    Token.issue_step_up_token Token.rotate_in Token.rotate_refresh_token Token.verify_access_token
    Token.revoke_session Token.revoke_all_user_sessions Device.compute_trust_score
    Device.register_device Device.enable_biometric Device.get_device Device.list_user_devices
    Device.revoke_device Device.validate_device Device.update_last_seen Drift.unix_time
    Drift.saturate Drift.since Drift.magnitude Drift.drift_ok Biometric.get_challenge
    Biometric.consume_challenge Biometric.check_timestamp_drift Biometric.enroll
    Biometric.verify_login Biometric.authenticate Biometric.step_up Auth.create_session
    Auth.count_failure Auth.handle_failed_login Auth.finish_login Auth.login_as Auth.login
    Access.validate_totp Access.verify_otp Access.exchange_biometric_token Access.refresh
    HttpAuth.handle_login HttpAuth.handle_send_otp HttpAuth.handle_verify_otp
    HttpAuth.handle_refresh HttpAuth.handle_logout HttpAuth.handle_logout_all
    HttpAuth.handle_authorize_payment HttpBiometric.handle_challenge HttpBiometric.handle_enroll
    HttpBiometric.handle_exchange HttpBiometric.handle_unenroll HttpDevices.handle_list_devices
    HttpDevices.handle_revoke_device HttpDevices.handle_verify_device HttpDevices.handle_logs
    Server.serve_public Server.serve_protected Server.guarded Server.route Server.deleted
    Server.security_headers Server.serve Access.logout Access.logout_all Access.authorize_payment
    Middleware.has_prefix Middleware.extract_bearer_token Middleware.extract_ip
    Middleware.authenticate Middleware.require_step_up Middleware.validate_device_gate
    RateLimiter.limit_request RateLimiter.cleanup Codec.print_unary Codec.read_unary Codec.print_int
    Codec.read_int Codec.print_text Codec.read_text Codec.print_flag Codec.read_flag
    Codec.print_maybe Codec.read_maybe Codec.print_payload Codec.unmarshal Codec.is_bytes
    Codec.marshal Codec.scan_params Signing.payload_of_parts Signing.payload_of Window.passed
    Samples.fit Samples.total Samples.digest Samples.seal Tables.where_ Tables.insert_by
    Tables.sort_by Tables.distinct Tables.create_user Tables.get_user_by_id Tables.get_user_by_email
    Tables.set_user_status Tables.list_users Tables.create_role Tables.list_roles
    Tables.create_permission Tables.grant_permission_to_role Tables.assign_role Tables.remove_role
    Tables.user_permissions Ascii.trim_left Ascii.trim_right Ascii.starts_with Ascii.contains
    Service.decide Service.publish Service.create_user Service.get_user Service.list_users
    Service.activate_user Service.lock_user Service.create_role Service.list_roles
    Service.create_permission Service.grant Service.assign_role Service.check
    Router.handle_admin_control Router.handle Router.serve Verification.dispatch_otp
    Verification.create_otp Verification.verify_otp Verification.verify_face Verification.list_audit
    Verification.evaluate_risk Handlers.serve Account.get_user_by_email Account.create_email_user
    Account.get_user_roles AccountService.build_auth_response AccountService.register_email
    AccountService.login_email AccountService.refresh_token AccountService.me AccountService.logout
    Emails.are_plain Emails.is_dotted Emails.is_address_tail Emails.matches_email
    AccountHandlers.bearer_token AccountHandlers.serve OpenTokens.claims_in OpenTokens.parsed
    Passwords.is_one_of Passwords.kinds_from Passwords.repeating_from Passwords.has_repeating_chars
    Passwords.contains_any Passwords.has_sequential_chars Passwords.validate_password
    Passwords.strength Codes.padded Codes.get_valid Codes.incr_attempts Codes.mark_verified
    Codes.without_prefix Codes.invalidate_all Codes.send Codes.verify Keys.hash_api_key
    Keys.extract_api_key_prefix Keys.update_where Keys.insert Keys.get_by_hash Keys.list_by_user
    Keys.revoke_row Keys.touch Keys.create Keys.authenticate Keys.serve
program = tt
