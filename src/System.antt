-- ===== src/System.antt =====
-- The parts together: the importer of pkg/service-hub/importer downloads what the server of another
-- cluster's hub has gathered, and writes the services from which the plugin of pkg/fabdns answers.
pub mod Answers
pub mod Replicas
pub mod Journeys
mod Tests
mod Runs
mod Trips
