-- ===== src/Lib.antt =====
-- ThreatScope XDR: the access control, the playbooks and the detection rules of the backend.
--
-- The package backend/app/modules/access_control decides who may use the platform. A browser signs
-- in with a password and, if the account has one, a second factor; it then holds a session cookie
-- and a CSRF token. Every request to the other modules passes one gate that looks the session up,
-- works out the permissions that the path and the method need, and writes what it denies and what
-- it changes to a log of events that are chained by their hashes. The modules of this library
-- follow the files of that package:
--   Access/Models     the rows of models.py, with the columns of the database as fields; also
--                     Notification of backend/app/models.py and SocActivity of soc_monitor/models.py
--   Access/Store      the database session, the configuration of config.py, errors, service calls
--   Access/RateLimit  rate_limit_service.py, and hash_value of session_service.py
--   Access/Sessions   session_service.py, csrf_service.py
--   Access/Roles      role_service.py: effective_permissions, role_keys, assign_roles
--   Access/Audit      audit_service.py: append_event, verify_integrity
--   Access/Redaction  redaction.py, with sensitive_keys.json of its rules
--   Access/Password   password_service.py, with the files password_policy.json and
--                     common_passwords.txt of its rules
--   Access/Users      user_service.py: names, create_user, ensure_not_last_admin, set_password
--   Access/Names      account_service.py: masked addresses and generated user names
--   Access/Notices    account_service.py: _activity, _notify
--   Access/Accounts   account_service.py: registration, approval, rejection, reopening
--   Access/Totp       mfa_service.py: one-time codes
--   Access/RecoveryCodes  mfa_service.py: recovery codes
--   Access/Mfa        mfa_service.py: enrolment, challenges, verify_user_factor
--   Access/Login      authentication.py, and login of router.py
--   Access/SessionApi csrf, logout, logout_all and delete_session of router.py, with
--                     get_current_session and require_authenticated_csrf of dependencies.py
--   Access/Routes     authorization.py, one function for each section of required_permissions
--   Access/Operations dependencies.py: _integration_operation
--   Access/Gate       dependencies.py: authorize_platform_request, before and after its yield, and
--                     the dependencies that ask for permissions
--   Access/FactorApi  verify_mfa_login and change_password of router.py
--   Access/SetupApi   the handlers of router.py that set up, confirm and remove a second factor
--   Access/Admin      the handlers of router.py by which administrators review registrations, and
--                     disable, enable, unlock and reset accounts, their sessions and their roles
-- The package backend/app/modules/soar runs playbooks: graphs of steps that are validated before
-- they are used, and executions of them that wait for approvals, for input and for delays, and
-- call actions from a catalogue. It asks the access control for the permissions of users.
--   Soar/Json         the values that conditions compare, with Python's equality and truth
--   Soar/Conditions   conditions.py; Soar/Conditions/Meaning has the trees that conditions spell
--   Soar/Validation   validation.py: _condition_errors
--   Soar/Graph        validation.py: the routes, the reachable steps and the cycles of a playbook
--                     in validate_definition; Soar/Graph/Walks says what a walk is
--   Soar/Models       the rows of models.py and the definitions of catalog.py
--   Soar/World        what a call is given and how it ends; event of service.py
--   Soar/Context      service.py: _context
--   Soar/StepRuns     service.py: _create_step, _fail, _pending_approval
--   Soar/StepTypes    service.py: what run_execution does at each type of step; of _dispatch the
--                     branches that change nothing in other modules
--   Soar/Executions   service.py: run_execution
--   Soar/Approvals    service.py: decide_approval, cancel_execution
--   Soar/Delays       service.py: process_due, for one execution
-- The package backend/app/modules/detection_engineering matches events against rules, whose
-- conditions combine the outcomes of selections.
--   Detection/Tokens, Detection/Parser, Detection/Outcomes
--                     detection_engineering/evaluator.py: _tokens, _parse_condition, and
--                     _match_value with evaluate
-- The modules below a component hold what is proved of it; Access/Keeps and Access/Returns are the
-- rules for invariants of calls and for what calls return; Access/Examples,
-- Soar/Examples and Detection/Examples hold the tests.
--
-- A service call is a function from the database session to an answer or an error and the session
-- that it leaves. The session holds two copies of the tables: what it sees, and what the last
-- commit left, to which rollback and the end of a request return. A query is a function of the
-- tables in the order of the rows' insertion; an update replaces the rows with the number of the
-- object that the code holds. The code flushes or commits before each of its queries, so a query
-- sees every earlier write. Each request runs at one instant, which all its calls of utcnow give,
-- and requests run one after the other. A moment is a number of microseconds since 1970.
--
-- What the code calls and the repository does not hold is a field of Env: SHA-256, argon2, the
-- one-time codes of pyotp, the cipher of cryptography.fernet, the Unicode tables of Python and
-- json.dumps; nothing is assumed of them. What a request draws at random (tokens, salts, recovery
-- codes, secrets) is an argument. The metadata of an event is given as the text that is stored.
--
-- In Access the only loops are over rows, over the characters of a text, over the values of
-- metadata, over the offsets of a one-time code and over the twenty draws of a user name, and all
-- are structural; `show` has the number plus one as its fuel, and a number has no more digits than
-- that.
--
-- In Soar a call is a function from the rows of one execution to an answer with the rows that the
-- database holds after it; a round of the loop of run_execution keeps the rows of the last commit
-- beside its own, to which an exception returns. The catalogue and the policies of actions are
-- arguments, and so are the changes that an action makes in other modules (World.perform), of
-- which Run.effects is the list. A definition is given as its list of steps with the configuration
-- read; floats, the Unicode tables and repr are fields of Python.
--
-- The depth of a condition is bounded by the code itself: nine calls may be open, and the model
-- recurs on those that are left. The worklist of the graph has one round and three more for each
-- step as its fuel, the depth-first visit one open call for each step; both are proved to be
-- enough. run_execution has the 50 rounds of the code.
--
-- The parser of Detection is a function of the tokens that are left. Every expression in an
-- expression is three deeper at least and the code refuses a depth over 8, so the model's ten open
-- calls are enough; its loops have as many rounds as there are tokens, and one more. That neither
-- runs out is proved. Conditions are texts of ASCII characters, and a normalised rule is given.
-- What ipaddress, fnmatch, float, str and casefold give is a field of Detection.Outcomes.Library;
-- of str.lower it is assumed that digits, parentheses and the words of the grammar stay the same.
--
-- Not modelled: of access_control/router.py the handlers that list, create and update accounts and
-- roles, which are to a great part replies; the seeding of roles, the reading of the environment
-- in config.py. Of soar/service.py the life cycle of playbooks, analyst input, triggers, rollback
-- and the changes that actions make in other modules; of soar/validation.py the tests of single
-- steps. Of detection_engineering all but the parts of evaluator.py named above. The other modules of the backend (vulnerability_management,
-- integrations, analytics, api_security and the rest), for their size. Cookies, notifications and
-- activities of SOAR, the texts of replies and the logs of requests are input and output only.
pub mod Prelude
pub mod Access
pub mod Soar
pub mod Detection
