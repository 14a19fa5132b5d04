-- ===== src/Web.antt =====
-- web/handler.go and web/templates.go: the routes, what each answers, and the page templates. A
-- handler takes the server and a request, and returns the server after it and the answer.
pub mod Answer
pub mod Assets
pub mod Discovery
pub mod Docs
pub mod Handlers
pub mod Laws
pub mod Path
pub mod Routes
pub mod Server
pub mod Templates
