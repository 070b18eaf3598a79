-- ===== src/Lib.antt =====
-- The back office of kAIkei: payments, receivables, approvals, orders, sessions, jobs, taxes and
-- payroll.
--
-- The program is a web service. A request reaches a handler (backend/app/api/v1/endpoints), which asks
-- the role table whether the user may act, and calls a service (backend/app/services). Services are
-- either pure computations on amounts and dates or operations on the rows of a database that is held
-- open for the length of the request. The modules here follow the services.
--
--   * Rbac: backend/app/core/rbac.py, the roles, the permissions and the table between them. The
--     approval workflow asks it.
--   * Approval: backend/app/services/approval_service.py. A store of journals, lines, users, workflows
--     and log rows; submit_for_approval, approve_journal, reject_journal and post_journal are the
--     methods submit_for_approval, approve, reject and post, and run is a history of requests.
--     Approval.Store has the rows, Approval.Roles the roles that a workflow names, Approval.Steps the
--     relation between the journal before and after a served request. Approval.Voiding is the handler
--     void_journal of backend/app/api/v1/endpoints/journals.py, which sets is_voided beside the workflow,
--     with scope_to_tenant of backend/app/core/tenant_scope.py; run_requests is a history of both.
--   * SubsetSum: the method _find_subset, which payment matching uses with a bound on its table.
--   * PaymentMatching: backend/app/services/payment_matching.py. match_payments is the method match,
--     reconcile its three stages, commit the inner function of that name.
--   * Receivables: backend/app/services/receivable_matching.py. match_receivables is the method match,
--     match_deposit one round of its loop, on rows that hold the dicts outstanding and applied. It shares
--     SubsetSum, with no bound on the table. Records has the data; Applied, Deposits and Conservation
--     follow an allocation, a deposit and the whole call.
--   * OrderFulfillment: backend/app/services/order_fulfillment.py. process is the method process; ship
--     is one round of its inner loop, on a Ledger that holds the loop's variables.
--   * RefreshTokens: backend/app/services/refresh_tokens.py, the handler refresh_token of
--     backend/app/api/v1/endpoints/auth.py after its token is decoded, and get_db of
--     backend/app/core/database.py, which commits or rolls back.
--   * Mfa: backend/app/services/mfa.py, which login and the settings of a user call.
--     verify_and_consume_totp checks a code and keeps its step; setup_mfa, enable_mfa, disable_mfa,
--     regenerate_backup_codes and consume_backup_code have the names of the code. Verified says what a
--     check has done, Replay has the histories of one user, Backup the attempts with backup codes,
--     Protection the requests of whoever holds a session.
--   * Login: the handler login of backend/app/api/v1/endpoints/auth.py, which calls Mfa and RefreshTokens
--     in the session of get_db. The check and the hash of a password are arguments. Rows is about the
--     row of the user, Session about the answers.
--   * JournalNumbering: backend/app/services/journal_numbering.py. next_journal_number and
--     insert_with_number have the names of the code; what other sessions write between the reading of
--     the numbers and the writing of a journal is an argument. The eight attempts are those of the code.
--   * Jobs: backend/app/services/job_scheduler.py and job_dispatch.py, and the handlers
--     run_scheduled_job, start_job_execution and complete_job_execution of
--     backend/app/api/v1/endpoints/jobs.py. compute_next_run stands in Jobs itself, with Schedule,
--     Monthly and NextRun on it; Executions has the handlers, Lifecycle and Worker their histories;
--     Dispatch calls compute_next_run and counts executions: Ripe is about its loop, Created about the
--     executions that it adds, Order about the selection and the sorting, Once about two dispatches.
--     Calendar is the part of the datetime library that they use.
--   * Tax: income_tax.py, income_deduction.py, salary_deduction.py, retirement_income_tax.py,
--     residence_tax.py, tax_calculator.py and invoice_tax.py of backend/app/services, one module each
--     (the first two in Tax.IncomeTax). Retirement income tax calls income tax, invoice tax calls the
--     tax calculator.
--   * Payroll: standard_remuneration.py, social_insurance.py and standard_bonus.py of
--     backend/app/services. Remuneration and Average give the grade, Premium the premiums, Bonus the
--     part of a bonus that counts.
--   * RateLimit: backend/app/middleware/rate_limit.py, which every request passes first. dispatch is the
--     method dispatch from the reading of the clock on; Limit has the histories of requests.
--
-- Prelude and Result are shared: tests and lists, integers over the native numbers, totals, sorting,
-- decimal digits, and the outcome of code that may raise.
--
-- How the code is rendered. An amount is an integer number of the smallest unit that the stored
-- columns have, most often ten-thousandths of a yen; each file names its unit, and rounding is written
-- as the division that the code asks for. The decimal type of the code rounds after 28 digits, and
-- the amounts here are exact. Identifiers, which are only compared, are numbers; dates are day numbers
-- and times are microseconds. A table of the database is a list of rows, and a query is a search in
-- it. An exception is an error value; where code has written rows before it raises, the outcome holds
-- the rows as well. Messages that hold a value of the call are given in a fixed form. The two limits of
-- the subset search are those of the code, 24 candidates and 200,000 totals. The loops of the modelled
-- code run over lists, but for the loop over months in compute_next_run, which is given two rounds:
-- a run in the month after is always later than a moment in this one.
--
-- Not modelled: columns that no modelled operation reads or writes, the failures of the database and of the network, concurrent transactions, the decoding
-- of tokens and texts, files, the web client, and the services that are not named above.
pub mod Prelude
pub mod Result
pub mod Calendar
pub mod Rbac
pub mod Approval
pub mod SubsetSum
pub mod PaymentMatching
pub mod Receivables
pub mod Tax
pub mod Payroll
pub mod RefreshTokens
pub mod Mfa
pub mod Login
pub mod JournalNumbering
pub mod OrderFulfillment
pub mod RateLimit
pub mod Jobs
