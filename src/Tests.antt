-- ===== src/Tests.antt =====
-- Runs of the operations with a scripted line.
mod Modem
mod Parse
mod Buffer
mod Commands
mod Isu
mod Messages
mod Device
mod Ports
mod Kernel
mod Service
mod Ownership
mod Layers
mod Threads
mod Delivery
mod Arrival
mod Retries
mod Events
