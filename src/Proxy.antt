-- ===== src/Proxy.antt =====
-- proxy/proxy.go, proxy/handler.go, proxy/module.go and proxy/requestContext.go: the users of the
-- proxy, their modules, and what happens to a request and its response.
pub mod Host
pub mod Modules
pub mod Users
pub mod Handler
pub mod Connect
pub mod Setup
mod Tests
