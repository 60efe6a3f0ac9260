-- ===== src/Auth.antt =====
-- The login: the exchange between the pages that the user sees, the authentication loop and Steam.
pub mod EResult
pub mod Results
pub mod Methods
pub mod Protocol
pub mod Loop
pub mod Pages
pub mod Backend
pub mod Safety
pub mod Consent
pub mod Factors
pub mod Login
pub mod Run
pub mod Servers
pub mod Texts
pub mod Success
pub mod Route
pub mod Replies
pub mod Answered
mod Tests
mod AnsweredTests
